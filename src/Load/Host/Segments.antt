-- ===== src/Load/Host/Segments.antt =====
-- The loop over a prefix against its segments.
use c_item.Base.{
  ℕ, zero, suc, ◌<◌, ◌≡◌, refl, sym, subst, ap, ◌↔◌, ◌≢◌, List, [], ◌∷◌, arith, length, take, drop,
  true, false, Bool-cases, Option-cases, inl, inr, if◌then◌else◌, Each, ◌==◌, ◌⊎◌, ==_iff,
}
use c_item.Base.Text.{codes, eq_bytes, eq_bytes_iff, all_bytes, find_byte}
use c_item.Base.Pieces.{pieces, pieces_alone, pieces_found, length-drop_found}
use c_item.Load.Result.{Result, ok, throws, bad_prefix_segment}
use c_item.Load.Host.{segment_byte, bad_segment, segment_loop, validate_route_prefix}

-- A segment of a path: unreserved characters only, and neither empty nor a dot segment.
abbrev pub IsSegment : List ℕ → Type 0
IsSegment s = (s ≢ []) × (s ≢ codes ".") × (s ≢ codes "..") × (all_bytes segment_byte s ≡ true)

abbrev pub IsPrefix : List ℕ → Type 0
IsPrefix s =
    (s ≡ codes "/") ⊎ ((rest : List ℕ) × (s ≡ b'/' ∷ rest) × Each IsSegment (pieces b'/' rest))

eq_bytes-false : (s t : List ℕ) → (eq_bytes s t ≡ false) ↔ (s ≢ t)
eq_bytes-false s t = elim (Bool-cases (eq_bytes s t)) [
  | inl e ↦ ((λ h. cc), (λ h. absurd (h ((eq_bytes_iff s t).0 e))))
  | inr e ↦ ((λ h q. cc ((eq_bytes_iff s t).1 q)), (λ h. e))
]

nonempty_iff : (s : List ℕ) → ((length s == 0) ≡ false) ↔ (s ≢ [])
nonempty_iff [] = ((λ h. cc), (λ h. absurd (h refl)))
nonempty_iff (x ∷ s) = ((λ h q. cc), (λ h. ground arith))

bad_segment_iff : (s : List ℕ) → (bad_segment s ≡ false) ↔ IsSegment s
unfolding bad_segment
bad_segment_iff s =
    ground (arith, nonempty_iff s, eq_bytes-false s (codes "."), eq_bytes-false s (codes ".."))

first-IsSegment :
    (s : List ℕ) (k : Result (Unit {0})) (P : Type 0)
    → ((k ≡ ok tt) ↔ P)
    → ((if bad_segment s then throws bad_prefix_segment else k) ≡ ok tt) ↔ (IsSegment s × P)
first-IsSegment s k P h = elim (Bool-cases (bad_segment s)) [
  | inl b ↦ rw b ((λ e. cc), (λ q. cc ((bad_segment_iff s).1 q.0)))
  | inr b ↦ rw b ((λ e. ((bad_segment_iff s).0 b, h.0 e)), (λ q. h.1 q.1))
]

-- With more fuel than the text has bytes, the loop passes the texts whose pieces are segments.
segment_loop_iff :
    (f : ℕ) (s : List ℕ)
    → length s < f
    → (segment_loop f s ≡ ok tt) ↔ Each IsSegment (pieces b'/' s)
unfolding segment_loop
segment_loop_iff zero s h = absurd (omega arith)
segment_loop_iff (suc f) s h = elim (Option-cases (find_byte b'/' s)) [
  | inl e ↦
      rw (e, pieces_alone b'/' s e, segment_loop)
        (first-IsSegment s (ok tt) (Unit {0}) ((λ q. tt), (λ q. refl)))
  | inr (n, e) ↦
      rw (e, pieces_found b'/' s n e, segment_loop)
        (first-IsSegment (take n s) (segment_loop f (drop (suc n) s))
          (Each IsSegment (pieces b'/' (drop (suc n) s)))
          (segment_loop_iff f (drop (suc n) s) (omega (arith, length-drop_found b'/' s n e))))
]

tail_of : {c b : ℕ} {s r : List ℕ} → (c ∷ s) ≡ (b ∷ r) → (c ≡ b) × (s ≡ r)
tail_of e = (cc, cc)

rooted_iff :
    (c : ℕ) (s : List ℕ)
    → (c == b'/') ≡ true
    → eq_bytes (c ∷ s) (codes "/") ≡ false
    → (segment_loop (suc (suc (length s))) s ≡ ok tt) ↔ IsPrefix (c ∷ s)
rooted_iff c s e f =
    let loop = segment_loop_iff (suc (suc (length s))) s (omega arith) in
    (
      λ q. inr (s, ap (λ x. x ∷ s) ((==_iff c b'/').0 e), loop.0 q),
      λ q. elim q [
        | inl g ↦ absurd ((eq_bytes-false (c ∷ s) (codes "/")).0 f g)
        | inr (r, g, h) ↦ loop.1 (subst (λ x. Each IsSegment (pieces b'/' x)) (sym (tail_of g).1) h)
      ],
    )

unrooted_refuted : (c : ℕ) (s : List ℕ) → (c == b'/') ≡ false → ¬ (IsPrefix (c ∷ s))
unrooted_refuted c s e (inl g) = cc ((==_iff c b'/').1 (tail_of g).0)
unrooted_refuted c s e (inr (r, g, h)) = cc ((==_iff c b'/').1 (tail_of g).0)

-- The prefix of a route is accepted exactly if it is "/" or a '/' before pieces that are all
-- segments: unreserved characters, neither empty nor a dot segment.
pub validate_route_prefix_iff : (s : List ℕ) → (validate_route_prefix s ≡ ok tt) ↔ IsPrefix s
unfolding validate_route_prefix
validate_route_prefix_iff [] = ((λ h. cc), (λ q. elim q [ inl e ↦ cc | inr (r, e, f) ↦ cc ]))
validate_route_prefix_iff (c ∷ s) = elim (Bool-cases (c == b'/')) [
  | inl e ↦ elim (Bool-cases (eq_bytes (c ∷ s) (codes "/"))) [
    | inl f ↦ rw (e, f) ((λ q. inl ((eq_bytes_iff (c ∷ s) (codes "/")).0 f)), (λ q. refl))
    | inr f ↦ rw (e, f) (rooted_iff c s e f)
  ]
  | inr e ↦ rw e ((λ q. cc), (λ q. absurd (unrooted_refuted c s e q)))
]
