-- ===== src/Gotcha.antt =====
-- What the library takes from libgotcha, which is not part of the repository: groups, one of which
-- is the shared one, in which preemption is off.
use libinger.Base.{◌≡◌, Bool, true}

pub record Gotcha (Group : Type 0) : Type 0 where
  pub shared : Group
  pub is_shared : Group → Bool
  pub shared_lem : is_shared shared ≡ true
