-- ===== src/Admission/Rotation.antt =====
-- The loop over the slots of a route visits them in rotation, each once.
use c_item.Base.{
  ℕ, zero, suc, ◌+◌, ◌-◌, ◌≤◌, ◌<◌, ◌≡◌, ◌≢◌, refl, ap, ◌∙◌, inl, inr, Bool, true, false, Option,
  none, some, arith, leb, ◌==◌, ==_iff, Bool-cases,
}
use c_item.Health.{HealthState, available}
use c_item.Admission.{advance, search}

-- The slot that is `d` steps behind `index` in the rotation.
unfoldable pub rotate : ℕ → ℕ → ℕ → ℕ
rotate size zero index = index
rotate size (suc d) index = rotate size d (advance size index)

pub advance_bound : (size i : ℕ) → i < size → advance size i < size
advance_bound size i h = ground arith

pub rotate_bound : (size d i : ℕ) → i < size → rotate size d i < size
unfolding rotate
rotate_bound size zero i h = h
rotate_bound size (suc d) i h = rotate_bound size d (advance size i) (advance_bound size i h)

advance_last : (size i : ℕ) → i + 1 ≡ size → advance size i ≡ 0
advance_last size i h = ground arith

advance_inner : (size i : ℕ) → i + 1 < size → advance size i ≡ i + 1
advance_inner size i h = ground arith

rotate_inner : (size d i : ℕ) → i + d < size → rotate size d i ≡ i + d
unfolding rotate
rotate_inner size zero i h = omega arith
rotate_inner size (suc d) i h =
    ap (rotate size d) (advance_inner size i (omega arith))
    ∙ rotate_inner size d (i + 1) (omega arith)
    ∙ omega arith

rotate_wrap : (size d i : ℕ) → i < size → size ≤ i + d → d ≤ size → rotate size d i ≡ i + d - size
unfolding rotate
rotate_wrap size zero i h k l = absurd (omega arith)
rotate_wrap size (suc d) i h k l = elim (Bool-cases (i + 1 == size)) [
  | inl e ↦
      ap (rotate size d) (advance_last size i ((==_iff (i + 1) size).0 e))
      ∙ rotate_inner size d 0 (omega arith)
      ∙ (let f : i + 1 ≡ size = (==_iff (i + 1) size).0 e in omega arith)
  | inr e ↦
      let ne : i + 1 ≢ size = λ f. cc (e, (==_iff (i + 1) size).1 f) in
      ap (rotate size d) (advance_inner size i (omega arith))
      ∙ rotate_wrap size d (i + 1) (omega arith) (omega arith) (omega arith)
      ∙ omega arith
]

-- The rotation reaches every slot.
pub rotate_reaches :
    (size i k : ℕ) → i < size → k < size → (d : ℕ) × (d < size) × (rotate size d i ≡ k)
rotate_reaches size i k h l = elim (Bool-cases (leb i k)) [
  | inl e ↦
      let f : i ≤ k = ground arith in
      (k - i, omega arith, rotate_inner size (k - i) i (omega arith) ∙ omega arith)
  | inr e ↦
      let f : k < i = ground arith in
      (
        k + size - i,
        omega arith,
        rotate_wrap size (k + size - i) i h (omega arith) (omega arith) ∙ omega arith,
      )
]

module _ (health : HealthState) (r size : ℕ) where
  -- What the loop has found when it ends: nothing, so that no slot it visited is available, or the first
  -- slot in rotation that is.
  pub data Searched (left index : ℕ) : Option (Option ℕ) → Type 0 where
    exhausted :
        ((e : ℕ) → e < left → available health r (rotate size e index) ≡ some false)
        → Searched left index (some none)
    found :
        (d k : ℕ)
        → k ≡ rotate size d index
        → available health r k ≡ some true
        → ((e : ℕ) → e < d → available health r (rotate size e index) ≡ some false)
        → Searched left index (some (some k))

  before :
      (n index : ℕ)
      → available health r index ≡ some false
      → ((e : ℕ) → e < n → available health r (rotate size e (advance size index)) ≡ some false)
      → (e : ℕ) → e < suc n
      → available health r (rotate size e index) ≡ some false
  unfolding rotate
  before n index h k zero l = h
  before n index h k (suc e) l = k e (omega arith)

  extend :
      (left index : ℕ) (s : Option (Option ℕ))
      → available health r index ≡ some false
      → Searched left (advance size index) s
      → Searched (suc left) index s
  unfolding rotate
  extend left index s h (exhausted k) = exhausted (before left index h k)
  extend left index s h (found d k e f g) = found (suc d) k e f (before d index h g)

  search_step :
      (left index : ℕ) (b : Bool)
      → available health r index ≡ some b
      → Searched left (advance size index) (search health r size left (advance size index))
      → Searched (suc left) index (search health r size (suc left) index)
  unfolding search rotate
  search_step left index true h k =
      rw (h, search) (found 0 index refl h (λ e l. absurd (omega arith)))
  search_step left index false h k = rw (h, search) (extend left index _ h k)

  pub search-Searched :
      (left index : ℕ)
      → index < size
      → ((k : ℕ) → k < size → (b : Bool) × (available health r k ≡ some b))
      → Searched left index (search health r size left index)
  unfolding search
  search-Searched zero index h t = exhausted (λ e l. absurd (omega arith))
  search-Searched (suc left) index h t =
      let (b, e) = t index h in
      search_step left index b e
        (search-Searched left (advance size index) (advance_bound size index h) t)
