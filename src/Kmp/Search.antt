-- ===== src/Kmp/Search.antt =====
-- kmp returns the first occurrence of the pattern, and -1 exactly where there is none.
use personal_c_cpp_back_end.Base.{
  ℕ, zero, suc, ◌+◌, ◌-◌, ◌*◌, ◌≤◌, ◌<◌, ◌≡◌, ◌≢◌, ◌∙◌, sym, ap, dec_lt, ℕ_discrete, true, false,
  Option, none, some, List, [], ◌∷◌, ok, ◌>>=◌, read, Returns, Returns-bind, ltb, ◌==◌,
  if◌then◌else◌, length, get_or, replicate, length-replicate, get_or_past, arith,
}
use personal_c_cpp_back_end.Kmp.{at, char_at, search_from, make_next, kmp, next_size}
use personal_c_cpp_back_end.Kmp.Fits.{char_at-in, same_char-in, Fits, Fits-border, not_Fits_between}
use personal_c_cpp_back_end.Kmp.Table.{IsTable, make_next-IsTable}

-- The pattern stands in the text at offset `i`.
abbrev pub Occurs : List ℕ → List ℕ → ℕ → Type 0
Occurs text pattern i =
    (i + length pattern ≤ length text) × Fits pattern text i (i + length pattern)

-- The documented result of the search.
abbrev pub IsFirst : List ℕ → List ℕ → Option ℕ → Type 0
IsFirst text pattern (some i) = Occurs text pattern i × ((j : ℕ) → j < i → ¬ Occurs text pattern j)
IsFirst text pattern none = (j : ℕ) → ¬ Occurs text pattern j

-- No byte of the string is the terminator.
abbrev pub IsString : List ℕ → Type 0
IsString [] = Unit {0}
IsString (c ∷ s) = (c ≢ 0) × IsString s

at-ne-zero : (s : List ℕ) → IsString s → (i : ℕ) → i < length s → at s i ≢ 0
at-ne-zero [] h i lt = elim lt [ ]
at-ne-zero (c ∷ s) h zero lt = h.0
at-ne-zero (c ∷ s) h (suc i) lt = at-ne-zero s h.1 i (omega arith)

module _ (text pattern next : List ℕ) (clean : IsString text) (some_byte : 0 < length pattern)
    (room : length pattern ≤ length next) (table : IsTable pattern next (length pattern)) where
  -- Offset `d` is under trial, `p` bytes of it agree, and all earlier offsets are ruled out.
  record Trial (d p : ℕ) : Type 0 where
    within : d + p ≤ length text
    short : p < length pattern
    fits : Fits pattern text d (d + p)
    earlier : (j : ℕ) → j < d → ¬ Occurs text pattern j

  at_end : (d p : ℕ) → Trial d p → at text (d + p) ≡ 0 → IsFirst text pattern none
  at_end d p s e j (inside, f) = elim (dec_lt j d) [
    | yes h ↦ s.earlier j h (inside, f)
    | no h ↦ elim (dec_lt (d + p) (length text)) [
      | yes more ↦ at-ne-zero text clean (d + p) more e
      | no full ↦ omega (arith, s.within, s.short)
    ]
  ]

  agree : (d p : ℕ) → Trial d p → at text (d + p) ≡ at pattern p → Fits pattern text d (d + suc p)
  agree d p s e x h = elim (dec_lt x p) [
    | yes before ↦ s.fits x (omega arith)
    | no last ↦
        let here : x ≡ p = omega arith in ap (at pattern) here ∙ sym e ∙ ap (at text) (omega arith)
  ]

  next_offset :
      (d p : ℕ)
      → Trial d (suc p)
      → d + suc p < length text
      → at text (d + suc p) ≢ at pattern (suc p)
      → Trial (d + (suc p - get_or next p 0)) (get_or next p 0)
  next_offset d p s inside mismatch =
      let b = table p (omega (arith, s.short)) in
      let smaller : get_or next p 0 < suc p = b.proper in
      record {
        within = omega (arith, s.within);
        short = omega (arith, s.short);
        fits = λ x h. Fits-border text b d s.fits x (omega arith);
        earlier = λ j h o. elim (dec_lt j d) [
          | yes before ↦ s.earlier j before o
          | no after ↦
              let size : suc p < length pattern = s.short in
              not_Fits_between text b d s.fits (j - d) (omega arith) mismatch λ x lt.
                let same : j + x ≡ d + (j - d) + x = omega arith in
                o.1 x (omega arith) ∙ ap (at text) same
        ];
      }

  next_byte : (d : ℕ) → Trial d 0 → d < length text → at text d ≢ at pattern 0 → Trial (suc d) 0
  next_byte d s inside mismatch = record {
    within = omega arith;
    short = s.short;
    fits = λ x h. absurd (omega arith);
    earlier = λ j h o. elim (dec_lt j d) [
      | yes before ↦ s.earlier j before o
      | no after ↦
          let same : j + 0 ≡ d = omega arith in
          mismatch (sym (o.1 0 (omega arith) ∙ ap (at text) same))
    ];
  }

  -- What a call with the fuel that is left returns.
  abbrev Rest : ℕ → Type 0
  Rest fuel =
      (d t p : ℕ)
      → t ≡ d + p
      → 2 * length text < fuel + (2 * d + p)
      → Trial d p
      → Returns (search_from fuel text pattern next t p) (IsFirst text pattern)

  after_miss :
      (fuel : ℕ)
      → Rest fuel
      → (d t p : ℕ) → t ≡ d + p
      → 2 * length text < suc fuel + (2 * d + p)
      → Trial d p
      → t < length text
      → at text t ≢ at pattern p
      → Returns
          (if p == 0
            then search_from fuel text pattern next (t + 1) p
            else (read next (p - 1) >>= λ p'. search_from fuel text pattern next t p'))
          (IsFirst text pattern)
  after_miss fuel rest d t zero e enough s more other =
      let here : t ≡ d = omega arith in
      rest (suc d) (t + 1) 0 (omega arith) (omega arith)
        (next_byte d s (omega arith) (λ m. other (ap (at text) here ∙ m)))
  after_miss fuel rest d t (suc p) e enough s more other =
      let test : (suc p == 0) ≡ false = ground arith in
      let back : suc p - 1 ≡ p = omega arith in
      let size : suc p < length pattern = s.short in
      let inside : ltb p (length next) ≡ true = ground arith in
      let smaller : get_or next p 0 < suc p = (table p (omega arith)).proper in
      rw (test, back, inside)
        (rest (d + (suc p - get_or next p 0)) t (get_or next p 0) (omega arith) (omega arith)
          (next_offset d p s (omega arith) (λ m. other (ap (at text) e ∙ m))))

  after_hit :
      (fuel : ℕ)
      → Rest fuel
      → (d t p : ℕ) → t ≡ d + p
      → 2 * length text < suc fuel + (2 * d + p)
      → Trial d p
      → t < length text
      → at text t ≡ at pattern p
      → Returns
          (if p + 1 == length pattern
            then ok (some (t + 1 - length pattern))
            else search_from fuel text pattern next (t + 1) (p + 1))
          (IsFirst text pattern)
  after_hit fuel rest d t p e enough s more same = elim (ℕ_discrete (p + 1) (length pattern)) [
    | yes whole ↦
        let test : (p + 1 == length pattern) ≡ true = ground arith in
        let start : t + 1 - length pattern ≡ d = omega arith in
        rw (test, start) ((omega arith, λ x h. grown x (omega arith)), s.earlier)
    | no part ↦
        let test : (p + 1 == length pattern) ≡ false = ground arith in
        let up : p + 1 ≡ suc p = omega arith in
        rw (test, up)
          (rest d (t + 1) (suc p) (omega arith) (omega arith) (record {
            within = omega arith;
            short = omega (arith, s.short);
            fits = grown;
            earlier = s.earlier;
          }))
  ]
    where
      grown : Fits pattern text d (d + suc p)
      grown = agree d p s (ap (at text) (sym e) ∙ same)

  search_from-IsFirst :
      (fuel d t p : ℕ)
      → t ≡ d + p
      → 2 * length text < fuel + (2 * d + p)
      → Trial d p
      → Returns (search_from fuel text pattern next t p) (IsFirst text pattern)
  unfolding search_from
  search_from-IsFirst zero d t p e enough s = absurd (omega (arith, s.within))
  search_from-IsFirst (suc fuel) d t p e enough s = elim (ℕ_discrete (at text t) 0) [
    | yes ended ↦
        let test : (at text t == 0) ≡ true = ground arith in
        rw (read_text, test) (at_end d p s (ap (at text) (sym e) ∙ ended))
    | no more ↦
        let test : (at text t == 0) ≡ false = ground arith in
        let inside = before_end t more in
        let rest = search_from-IsFirst fuel in
        rw (read_text, test, same_char-in text pattern t p here (omega (arith, s.short)))
          (elim (ℕ_discrete (at text t) (at pattern p)) [
            | yes same ↦
                let hit : (at text t == at pattern p) ≡ true = ground arith in
                rw hit (after_hit fuel rest d t p e enough s inside same)
            | no other ↦
                let miss : (at text t == at pattern p) ≡ false = ground arith in
                rw miss (after_miss fuel rest d t p e enough s inside other)
          ])
  ]
    where
      here : t ≤ length text
      here = omega (arith, e, s.within)

      read_text : char_at text t ≡ ok (at text t)
      read_text = char_at-in text t here

      before_end : (t : ℕ) → at text t ≢ 0 → t < length text
      before_end t more = elim (dec_lt t (length text)) [
        | yes h ↦ h
        | no h ↦ absurd (more (get_or_past text t 0 (omega arith)))
      ]

-- For a text without zero bytes and a pattern of 1 to 20 bytes, the search ends, reads and writes
-- nothing outside the table and the two strings with their terminators, and returns the offset of the
-- first occurrence of the pattern, or -1 if the pattern does not occur.
pub kmp-IsFirst :
    (text pattern : List ℕ)
    → IsString text
    → 0 < length pattern
    → length pattern ≤ next_size
    → Returns (kmp text pattern) (IsFirst text pattern)
unfolding kmp
kmp-IsFirst text pattern clean some_byte short =
    let size = length-replicate next_size (let z : ℕ = 0 in z) in
    Returns-bind (IsFirst text pattern) (make_next pattern (replicate next_size 0)) _
      (make_next-IsTable pattern (replicate next_size 0) some_byte short)
      λ next (kept, table).
        search_from-IsFirst text pattern next clean some_byte (omega (arith, kept)) table
          (2 * length text + 1) 0 0 0 (omega arith) (omega arith)
          (record {
            within = omega arith;
            short = some_byte;
            fits = λ x h. absurd (omega arith);
            earlier = λ j h. absurd (omega arith);
          })
