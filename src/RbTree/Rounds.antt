-- ===== src/RbTree/Rounds.antt =====
-- 1_rbtree/rbtree.c: a round of _adjustAfterInsert, whose parent and grandparent are on the way up.
use personal_c_cpp_back_end.Base.{
  ℕ, suc, ◌≡◌, refl, sym, ap, ◌∙◌, ◌∷◌, append_assoc, length, Returns, Returns-mono, arith,
}
use personal_c_cpp_back_end.RbTree.{Ptr, red, black, Tree}
use personal_c_cpp_back_end.RbTree.Rotate.{left_rotate, right_rotate}
use personal_c_cpp_back_end.RbTree.Insert.{recolor, lift}
use personal_c_cpp_back_end.RbTree.Zipper.{
  Colored, bin, in_left, in_right, Way, Zip, Zip-up, Zip-down,
}
use personal_c_cpp_back_end.RbTree.Balance.{top, IsGood, IsGoodWay, Entries, inorder, inorder_at}
use personal_c_cpp_back_end.RbTree.TurnLeft.{left_rotate-Zip}
use personal_c_cpp_back_end.RbTree.TurnRight.{right_rotate-Zip}
use personal_c_cpp_back_end.RbTree.Lift.{
  recolor-left, recolor-right, lift-right_rotate, lift-left_rotate,
}
use personal_c_cpp_back_end.RbTree.Repair.{RedAt, NextAt}

module _ (z : Ptr) (es : Entries) where
  -- The uncle is black: the parent is lifted over the grandparent.
  pub lift-right_rotate-NextAt :
      (t : Tree) (l r pr u : Colored) (n p g k kp kg : ℕ) (way : Way)
      → RedAt z t es l n k r (in_left red p kp pr ∷ in_left black g kg u ∷ way)
      → top u ≡ black
      → Returns (lift right_rotate t n) (NextAt z es (suc (length way)))
  lift-right_rotate-NextAt t l r pr u n p g k kp kg way v tu =
      let (tp, gp, _, (gu, w)) = v.around in
      Returns-mono _ (lift right_rotate t n)
        (lift-right_rotate z t red red black l r pr u n p g k kp kg way v.zip)
        λ (t', node) (same, v'). record {
          left = l;
          key = k;
          right = r;
          way = in_left black p kp (bin red pr g kg u) ∷ way;
          at = rw same record {
            zip = v';
            height = v.height;
            good = v.good;
            around = ((tp, tu, gp, gu), w);
            same =
                ap (inorder_at way) (
                  sym (
                    append_assoc (inorder (bin red l n k r)) ((p, kp) ∷ inorder pr)
                      ((g, kg) ∷ inorder u)))
                ∙ v.same;
          };
          near = omega arith;
        }

  pub lift-left_rotate-NextAt :
      (t : Tree) (l r pl u : Colored) (n p g k kp kg : ℕ) (way : Way)
      → RedAt z t es l n k r (in_right red pl p kp ∷ in_right black u g kg ∷ way)
      → top u ≡ black
      → Returns (lift left_rotate t n) (NextAt z es (suc (length way)))
  lift-left_rotate-NextAt t l r pl u n p g k kp kg way v tu =
      let (tp, gp, _, (gu, w)) = v.around in
      Returns-mono _ (lift left_rotate t n)
        (lift-left_rotate z t red red black l r pl u n p g k kp kg way v.zip)
        λ (t', node) (same, v'). record {
          left = l;
          key = k;
          right = r;
          way = in_right black (bin red u g kg pl) p kp ∷ way;
          at = rw same record {
            zip = v';
            height = v.height;
            good = v.good;
            around = ((tu, tp, gu, gp), w);
            same =
                ap (inorder_at way) (
                  append_assoc (inorder u) ((g, kg) ∷ inorder pl)
                    ((p, kp) ∷ inorder (bin red l n k r)))
                ∙ v.same;
          };
          near = omega arith;
        }

  -- The inner node is rotated to the outside first, and the round goes on with its parent.
  pub left_rotate-RedAt :
      (t : Tree) (l r pl u : Colored) (n p g k kp kg : ℕ) (way : Way)
      → RedAt z t es l n k r (in_right red pl p kp ∷ in_left black g kg u ∷ way)
      → Returns
          (left_rotate t p)
          λ t'. RedAt z t' es pl p kp l (in_left red n k r ∷ in_left black g kg u ∷ way)
  left_rotate-RedAt t l r pl u n p g k kp kg way v =
      let (tp, gp, _, (gu, w)) = v.around in
      let (tl, tr, gl, gr) = v.good in
      let up = in_left black g kg u ∷ way in
      let above = Zip-up z t (bin red l n k r) (in_right red pl p kp) up v.zip in
      Returns-mono _ (left_rotate t p) (left_rotate-Zip z t red red pl l r p n kp k up above)
        λ t' v'. record {
          zip = Zip-down z t' (bin red pl p kp l) (in_left red n k r) up v';
          height = v.height;
          good = (tp, tl, gp, gl);
          around = (tr, gr, tt, (gu, w));
          same =
              ap (inorder_at up)
                (append_assoc (inorder pl) ((p, kp) ∷ inorder l) ((n, k) ∷ inorder r))
              ∙ v.same;
        }

  pub right_rotate-RedAt :
      (t : Tree) (l r pr u : Colored) (n p g k kp kg : ℕ) (way : Way)
      → RedAt z t es l n k r (in_left red p kp pr ∷ in_right black u g kg ∷ way)
      → Returns
          (right_rotate t p)
          λ t'. RedAt z t' es r p kp pr (in_right red l n k ∷ in_right black u g kg ∷ way)
  right_rotate-RedAt t l r pr u n p g k kp kg way v =
      let (tp, gp, _, (gu, w)) = v.around in
      let (tl, tr, gl, gr) = v.good in
      let up = in_right black u g kg ∷ way in
      let above = Zip-up z t (bin red l n k r) (in_left red p kp pr) up v.zip in
      Returns-mono _ (right_rotate t p) (right_rotate-Zip z t red red l r pr n p k kp up above)
        λ t' v'. record {
          zip = Zip-down z t' (bin red r p kp pr) (in_right red l n k) up v';
          height = v.height;
          good = (tr, tp, gr, gp);
          around = (tl, gl, tt, (gu, w));
          same =
              ap (inorder_at up)
                (sym (append_assoc (inorder l) ((n, k) ∷ inorder r) ((p, kp) ∷ inorder pr)))
              ∙ v.same;
        }

  -- The uncle is red.
  pub recolor-left-NextAt :
      (t : Tree) (pl pr ul ur : Colored) (p g u kp kg ku m : ℕ) (way : Way)
      → Zip z t (bin red pl p kp pr) (in_left black g kg (bin red ul u ku ur) ∷ way)
      → IsGood pl m
      → IsGood pr m
      → IsGood (bin red ul u ku ur) m
      → IsGoodWay way (suc m)
      → inorder_at (in_left black g kg (bin red ul u ku ur) ∷ way) (inorder (bin red pl p kp pr))
        ≡ es
      → Returns (recolor t u p g) (NextAt z es (suc (length way)))
  recolor-left-NextAt t pl pr ul ur p g u kp kg ku m way v gpl gpr (tl, tr, gul, gur) w same =
      Returns-mono _ (recolor t u p g)
        (recolor-left z t red black red pl pr ul ur p g u kp kg ku way v)
        λ (t', node) (at_g, v'). record {
          left = bin black pl p kp pr;
          key = kg;
          right = bin black ul u ku ur;
          way = way;
          at = rw at_g record {
            zip = v';
            height = suc m;
            good = (refl, refl, (m, refl, gpl, gpr), (m, refl, gul, gur));
            around = w;
            same = same;
          };
          near = omega arith;
        }

  pub recolor-right-NextAt :
      (t : Tree) (pl pr ul ur : Colored) (p g u kp kg ku m : ℕ) (way : Way)
      → Zip z t (bin red pl p kp pr) (in_right black (bin red ul u ku ur) g kg ∷ way)
      → IsGood pl m
      → IsGood pr m
      → IsGood (bin red ul u ku ur) m
      → IsGoodWay way (suc m)
      → inorder_at (in_right black (bin red ul u ku ur) g kg ∷ way) (inorder (bin red pl p kp pr))
        ≡ es
      → Returns (recolor t u p g) (NextAt z es (suc (length way)))
  recolor-right-NextAt t pl pr ul ur p g u kp kg ku m way v gpl gpr (tl, tr, gul, gur) w same =
      Returns-mono _ (recolor t u p g)
        (recolor-right z t red black red pl pr ul ur p g u kp kg ku way v)
        λ (t', node) (at_g, v'). record {
          left = bin black ul u ku ur;
          key = kg;
          right = bin black pl p kp pr;
          way = way;
          at = rw at_g record {
            zip = v';
            height = suc m;
            good = (refl, refl, (m, refl, gul, gur), (m, refl, gpl, gpr));
            around = w;
            same = same;
          };
          near = omega arith;
        }
