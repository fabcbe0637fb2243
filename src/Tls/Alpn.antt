-- ===== src/Tls/Alpn.antt =====
-- The choice of a protocol against the list that the client offers.
use c_item.Base.{
  ℕ, zero, suc, ◌≤◌, ◌≡◌, refl, sym, subst, ap, ◌∙◌, Bool, false, ◌&&◌, ◌||◌, List, [], ◌∷◌, ◌++◌,
  ltb, ◌==◌, if◌then◌else◌, arith, Each, Bool-cases, inl, inr, and_true, ==_iff, length, take, drop,
  take-append, drop-append, length-append,
}
use c_item.Base.Text.{codes, eq_bytes, eq_bytes_iff}
use c_item.Tls.{alert_fatal, selected, select_loop, select_http11}

abbrev pub http11 : List ℕ
http11 = codes "http/1.1"

-- A client's list: each protocol behind its length.
unfoldable pub encode : List (List ℕ) → List ℕ
encode [] = []
encode (p ∷ ps) = length p ∷ (p ++ encode ps)

unfoldable pub offers : List (List ℕ) → Bool
offers [] = false
offers (p ∷ ps) = eq_bytes p http11 || offers ps

-- The test of the loop looks at the protocol alone.
http11_test :
    (p e : List ℕ) → (length p == 8 && eq_bytes (take 8 (p ++ e)) http11) ≡ eq_bytes p http11
http11_test p e = elim (Bool-cases (length p == 8)) [
  | inl f ↦
      let eight : length p ≡ 8 = ground arith in
      let alone : take 8 (p ++ e) ≡ p = subst (λ n. take n (p ++ e) ≡ p) eight (take-append p e) in
      rw (f, alone) refl
  | inr f ↦ elim (Bool-cases (eq_bytes p http11)) [
    | inl g ↦ cc (rw ((eq_bytes_iff p http11).0 g) at f)
    | inr g ↦ rw (f, g) refl
  ]
]

select_loop-encode :
    (ps : List (List ℕ)) (fuel : ℕ)
    → length (encode ps) ≤ fuel
    → Each (λ (p : List ℕ). 1 ≤ length p) ps
    → select_loop fuel (encode ps) ≡ (if offers ps then selected http11 else alert_fatal)
unfolding encode offers select_loop
select_loop-encode [] zero h v = refl
select_loop-encode [] (suc fuel) h v = refl
select_loop-encode (p ∷ ps) zero h v = absurd (omega arith)
select_loop-encode (p ∷ ps) (suc fuel) h (size, v) =
    let e = encode ps in
    let some_size : (length p == 0) ≡ false = ground arith in
    let fits : ltb (length (p ++ e)) (length p) ≡ false = ground (arith, length-append p e) in
    elim (Bool-cases (eq_bytes p http11)) [
      | inl f ↦
          rw (some_size, fits, http11_test p e, f, take-append p e)
            (ap selected ((eq_bytes_iff p http11).0 f))
      | inr f ↦
          rw (some_size, fits, http11_test p e, f, drop-append p e)
            (select_loop-encode ps fuel (omega (arith, length-append p e)) v)
    ]

-- Of a list of protocols that are not empty, http/1.1 is selected exactly if it is among them, and
-- otherwise the handshake fails.
pub select_http11-encode :
    (ps : List (List ℕ))
    → Each (λ (p : List ℕ). 1 ≤ length p) ps
    → select_http11 (encode ps) ≡ (if offers ps then selected http11 else alert_fatal)
unfolding select_http11
select_http11-encode ps v = select_loop-encode ps (length (encode ps)) (omega arith) v

selected_inj : {p q : List ℕ} → selected p ≡ selected q → p ≡ q
selected_inj e = cc

select_loop_only : (fuel : ℕ) (input p : List ℕ) → select_loop fuel input ≡ selected p → p ≡ http11
unfolding select_loop
select_loop_only zero [] p e = cc
select_loop_only (suc fuel) [] p e = cc
select_loop_only zero (n ∷ input) p e = cc
select_loop_only (suc fuel) (n ∷ input) p e = elim (Bool-cases (n == 0 || ltb (length input) n)) [
  | inl f ↦ cc (rw f at e)
  | inr f ↦ elim (Bool-cases (n == 8 && eq_bytes (take 8 input) http11)) [
    | inl g ↦
        let (eight, same) = and_true (n == 8) (eq_bytes (take 8 input) http11) g in
        sym (selected_inj (rw (f, g) at e))
        ∙ ap (λ m. take m input) ((==_iff n 8).0 eight)
        ∙ (eq_bytes_iff (take 8 input) http11).0 same
    | inr g ↦ select_loop_only fuel (drop n input) p (rw (f, g) at e)
  ]
]

-- Whatever bytes a client sends, nothing but http/1.1 is ever selected.
pub select_http11_only : (input p : List ℕ) → select_http11 input ≡ selected p → p ≡ http11
unfolding select_http11
select_http11_only input p e = select_loop_only (length input) input p e
