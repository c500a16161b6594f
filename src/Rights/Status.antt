-- ===== src/Rights/Status.antt =====
-- `GridRightStatus` of src/decision.rs, its transitions, and what they reach.
use grid_edge_t.Base.{Bool, true, false, ◌≡◌, ◌⊎◌, inl, inr, subst, arith}

pub data GridRightStatus : Type 0 where
  granted residual deferred reserved partially_exercised exercised : GridRightStatus
  released transferred blocked expired revoked : GridRightStatus

unfoldable pub can_transition : GridRightStatus → GridRightStatus → Bool
can_transition granted residual = true
can_transition granted deferred = true
can_transition granted blocked = true
can_transition granted reserved = true
can_transition reserved partially_exercised = true
can_transition reserved exercised = true
can_transition reserved released = true
can_transition partially_exercised partially_exercised = true
can_transition partially_exercised exercised = true
can_transition partially_exercised released = true
can_transition partially_exercised expired = true
can_transition partially_exercised transferred = true
can_transition partially_exercised revoked = true
can_transition residual transferred = true
can_transition residual expired = true
can_transition residual revoked = true
can_transition deferred transferred = true
can_transition deferred expired = true
can_transition deferred revoked = true
can_transition blocked transferred = true
can_transition blocked expired = true
can_transition blocked revoked = true
can_transition released transferred = true
can_transition released expired = true
can_transition released revoked = true
can_transition _ _ = false

-- Statuses along allowed transitions.
pub data Reach (s : GridRightStatus) : GridRightStatus → Type 0 where
  here : Reach s s
  next : {t u : GridRightStatus} → Reach s t → can_transition t u ≡ true → Reach s u

-- A right whose authority was decided upon and is only kept for a later level.
abbrev pub IsCarried : GridRightStatus → Type 0
IsCarried s = (s ≡ residual) ⊎ ((s ≡ deferred) ⊎ ((s ≡ blocked) ⊎ (s ≡ released)))

-- A right that no transition leaves.
abbrev pub IsEnded : GridRightStatus → Type 0
IsEnded s = (s ≡ exercised) ⊎ ((s ≡ transferred) ⊎ ((s ≡ expired) ⊎ (s ≡ revoked)))

-- A right that is carried can only stay so, or be transferred, expire or be revoked: it is never
-- exercised or reserved again.
pub Reach-IsCarried :
    {s t : GridRightStatus}
    → Reach s t
    → IsCarried s
    → (t ≡ s) ⊎ ((t ≡ transferred) ⊎ ((t ≡ expired) ⊎ (t ≡ revoked)))
unfolding can_transition
Reach-IsCarried here c = ground arith
Reach-IsCarried (next {t = t} {u = u} r h) c = let before = Reach-IsCarried r c in ground arith

-- A right that was exercised, transferred, revoked or has expired keeps its status.
pub Reach-IsEnded : {s t : GridRightStatus} → Reach s t → IsEnded s → t ≡ s
unfolding can_transition
Reach-IsEnded here e = ground arith
Reach-IsEnded (next r h) e = let before = Reach-IsEnded r e in ground arith

before_exercise :
    (t u : GridRightStatus)
    → can_transition t u ≡ true
    → (u ≡ partially_exercised) ⊎ ((u ≡ exercised) ⊎ (u ≡ released))
    → (t ≡ reserved) ⊎ ((t ≡ partially_exercised) ⊎ ((t ≡ exercised) ⊎ (t ≡ released)))
unfolding can_transition
before_exercise t u h e = ground arith

-- A granted right that is partially or wholly exercised, or released, was reserved on the way.
pub Reach-through_reserved :
    {s t : GridRightStatus}
    → Reach s t
    → s ≡ granted
    → (t ≡ partially_exercised) ⊎ ((t ≡ exercised) ⊎ (t ≡ released))
    → Reach s reserved × Reach reserved t
unfolding can_transition
Reach-through_reserved here g e = ground arith
Reach-through_reserved {s} (next {t = t} {u = u} r h) g e = elim (before_exercise t u h e) [
  | inl p ↦ let q : Reach s reserved = subst (Reach s) p r in (q, next here (rw p at h))
  | inr p ↦ let (q, k) = Reach-through_reserved r g p in (q, next k h)
]
