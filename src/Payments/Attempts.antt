-- ===== src/Payments/Attempts.antt =====
-- How many attempts the events of the inbox have left, and what the two marks do to them.
use mathlib.Core.List.{Memᴰ}
use mathlib.Core.Path.{sym}
use text.Mathlib.TextPositions.{eq_refl}
use doorbust.Base.{
  ℕ, ◌+◌, ◌-◌, ◌≤◌, String, Bool, true, not, ◌&&◌, ltb, leb, str_eq, eq_iff, ◌≡◌, refl, Option,
  none, some, List, [], ◌∷◌, ◌⊎◌, find, update_first, sum, Bool-cases, inl, inr, arith,
  if◌then◌else◌,
}
use doorbust.Store.{StripeEvent}
use doorbust.Queries.Turns.{Turn}
use doorbust.Queries.OrderRows.{is_found}
use doorbust.Queries.EventRows.{has_event_id, is_claimable, earlier, earliest}

-- No two events share an id, which is the primary key.
abbrev pub IsKeyed : List StripeEvent → Type 0
IsKeyed [] = Unit
IsKeyed (e ∷ es) = (find (has_event_id e.id) es ≡ none) × IsKeyed es

abbrev pub attempts_left : ℕ → StripeEvent → ℕ
attempts_left max_attempts e = if is_found e.processed_at then 0 else max_attempts - e.attempts

abbrev pub all_left : ℕ → List StripeEvent → ℕ
all_left max_attempts = sum (attempts_left max_attempts)

picked :
    (x e : StripeEvent) (rest : Option StripeEvent)
    → some (earlier x rest) ≡ some e
    → (x ≡ e) ⊎ (rest ≡ some e)
picked x e none h = inl cc
picked x e (some y) h = elim (Bool-cases (leb x.received_at y.received_at)) [
  | inl first ↦ let at_once : some x ≡ some e = rw first at h in inl cc
  | inr second ↦ inr (rw second at h)
]

-- The event that is claimed is a row that passes.
pub earliest-Memᴰ :
    (t : StripeEvent → Bool) (es : List StripeEvent) (e : StripeEvent)
    → earliest t es ≡ some e
    → Memᴰ e es × (t e ≡ true)
unfolding earliest
earliest-Memᴰ t [] e h = cc
earliest-Memᴰ t (x ∷ xs) e h = elim (Bool-cases (t x)) [
  | inl tx ↦ elim (picked x e (earliest t xs) (rw tx at h)) [
    | inl same ↦ (Memᴰ.head (sym same), rw (sym same) tx)
    | inr rest ↦ let (m, te) = earliest-Memᴰ t xs e rest in (Memᴰ.tail m, te)
  ]
  | inr tx ↦ let (m, te) = earliest-Memᴰ t xs e (rw tx at h) in (Memᴰ.tail m, te)
]

find-Memᴰ :
    (id : String) (es : List StripeEvent) (e : StripeEvent)
    → Memᴰ e es
    → str_eq e.id id ≡ true
    → find (has_event_id id) es ≡ none
    → ⊥
find-Memᴰ id [] e m same h = elim m [ ]
find-Memᴰ id (x ∷ xs) e (Memᴰ.head at) same h =
    let hit : str_eq x.id id ≡ true = rw at at same in let found : some x ≡ none = rw hit at h in cc
find-Memᴰ id (x ∷ xs) e (Memᴰ.tail m) same h = elim (Bool-cases (str_eq x.id id)) [
  | inl hit ↦ let found : some x ≡ none = rw hit at h in cc
  | inr miss ↦ find-Memᴰ id xs e m same (rw miss at h)
]

-- What a mark makes of a row.
pub record IsMark (max_attempts : ℕ) (f : StripeEvent → StripeEvent) : Type 0 where
  pub same_id : (e : StripeEvent) → (f e).id ≡ e.id
  pub fewer :
      (e : StripeEvent) → attempts_left max_attempts (f e) ≤ attempts_left max_attempts e - 1

-- The inbox after a mark.
pub record Marked (max_attempts : ℕ) (before after : List StripeEvent) : Type 0 where
  pub keyed : IsKeyed after
  pub fewer : all_left max_attempts after + 1 ≤ all_left max_attempts before
  pub absent :
      (id : String) → find (has_event_id id) before ≡ none → find (has_event_id id) after ≡ none

module _ (max_attempts : ℕ) (f : StripeEvent → StripeEvent) (mark : IsMark max_attempts f)
    (e : StripeEvent) (left : 1 ≤ attempts_left max_attempts e) where
  mark_here : (es : List StripeEvent) → IsKeyed (e ∷ es) → Marked max_attempts (e ∷ es) (f e ∷ es)
  unfolding sum
  mark_here es keyed = record {
    keyed = rw (mark.same_id e) keyed;
    fewer = omega (arith, mark.fewer e, left);
    absent = λ id h. elim (Bool-cases (str_eq e.id id)) [
      | inl hit ↦ let found : some e ≡ none = rw hit at h in cc
      | inr miss ↦ rw (mark.same_id e) (rw miss (rw miss at h))
    ];
  }

  mark_later :
      (x : StripeEvent) (es rows : List StripeEvent)
      → IsKeyed (x ∷ es)
      → Marked max_attempts es rows
      → Marked max_attempts (x ∷ es) (x ∷ rows)
  unfolding sum
  mark_later x es rows keyed m = record {
    keyed = (m.absent x.id keyed.0, m.keyed);
    fewer = omega (arith, m.fewer);
    absent = λ id h. elim (Bool-cases (str_eq x.id id)) [
      | inl hit ↦ let found : some x ≡ none = rw hit at h in cc
      | inr miss ↦ rw miss (m.absent id (rw miss at h))
    ];
  }

  -- The UPDATE by the id meets the row that has been claimed.
  pub update_first-Marked :
      (es : List StripeEvent)
      → IsKeyed es
      → Memᴰ e es
      → (r : StripeEvent × List StripeEvent) × (update_first (has_event_id e.id) f es ≡ some r)
        × Marked max_attempts es r.1
  unfolding update_first
  update_first-Marked [] keyed m = elim m [ ]
  update_first-Marked (x ∷ xs) keyed (Memᴰ.head same) = (
    (f e, f e ∷ xs),
    rw (sym same) (rw (eq_refl e.id) refl),
    rw (sym same) (mark_here xs (rw (sym same) at keyed)),
  )
  update_first-Marked (x ∷ xs) keyed (Memᴰ.tail m) = elim (Bool-cases (str_eq x.id e.id)) [
    | inl hit ↦
        absurd
          (find-Memᴰ x.id xs e m ((eq_iff e.id x.id).1 (sym ((eq_iff x.id e.id).0 hit))) keyed.0)
    | inr miss ↦
        let (r, u, done) = update_first-Marked xs keyed.1 m in
        ((r.0, x ∷ r.1), rw miss (rw u refl), mark_later x xs r.1 keyed done)
  ]

module _ (max_attempts : ℕ) where
  pub processed-IsMark :
      (now : ℕ) (last_error : Option String)
      → IsMark max_attempts (λ e. record e {
        processed_at = some now;
        attempts = e.attempts + 1;
        last_error = last_error;
      })
  processed-IsMark now last_error = record { same_id = λ e. refl; fewer = λ e. omega arith }

  failed_lem :
      (p : Option ℕ) (n : ℕ)
      → (if is_found p then 0 else max_attempts - (n + 1))
        ≤ (if is_found p then 0 else max_attempts - n) - 1
  failed_lem none n = omega arith
  failed_lem (some p) n = omega arith

  pub failed-IsMark :
      (last_error : Option String)
      → IsMark max_attempts (λ e. record e { attempts = e.attempts + 1; last_error = last_error })
  failed-IsMark last_error = record {
    same_id = λ e. refl;
    fewer = λ e. failed_lem e.processed_at e.attempts;
  }

  claimable_lem :
      (p : Option ℕ) (n : ℕ) (b : Bool)
      → (not (is_found p) && ltb n max_attempts && b) ≡ true
      → 1 ≤ (if is_found p then 0 else max_attempts - n)
  claimable_lem none n b h = ground arith
  claimable_lem (some p) n b h = cc

  pub is_claimable-left :
      (t : Turn) (e : StripeEvent)
      → is_claimable max_attempts t e ≡ true
      → 1 ≤ attempts_left max_attempts e
  is_claimable-left t e h = claimable_lem e.processed_at e.attempts (not (t.is_locked_event e.id)) h
