-- ===== src/Deadlock/Unlock.antt =====
-- after_unlock: the lock is given up, and its node is freed with its last user.
use personal_c_cpp_back_end.Base.{◌-◌, ◌<◌, ◌≡◌, ◌≢◌, false, none, some}
use personal_c_cpp_back_end.Deadlock.{Ptr, null, ResourceLock, TaskGraph, has}

-- What the hook leaves of the lock `l` at `q`.
abbrev pub GivenUp : TaskGraph → Ptr → ResourceLock → TaskGraph → Type 0
GivenUp g q l g' =
    (l.used ≡ 1 → (g'.resource q ≡ none) × (has q g'.lock_list ≡ false))
    × (1 < l.used → g'.resource q ≡ some (record l { holder = null; used = l.used - 1 }))
    × ((p : Ptr) → p ≢ q → g'.resource p ≡ g.resource p)
    × (g'.vertex ≡ g.vertex)
