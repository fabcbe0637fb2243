-- ===== src/Proxy/Tokens.antt =====
-- The tokens of a Connection field are the pieces between its commas.
use c_item.Base.{
  ℕ, zero, suc, ◌<◌, ◌≡◌, refl, inl, inr, List, [], ◌∷◌, arith, Option-cases, length, take, drop,
}
use c_item.Base.Text.{find_byte}
use c_item.Base.Pieces.{pieces, pieces_alone, pieces_found, length-drop_found}
use c_item.Proxy.{trim_http_token, insert_token, token_loop}

unfoldable pub insert_all : List (List ℕ) → List (List ℕ) → List (List ℕ)
insert_all [] tokens = tokens
insert_all (p ∷ ps) tokens = insert_all ps (insert_token (trim_http_token p) tokens)

-- With more fuel than the value has bytes, the loop inserts exactly the pieces between the commas,
-- trimmed and in lower case.
pub token_loop-pieces :
    (f : ℕ) (s : List ℕ) (tokens : List (List ℕ))
    → length s < f
    → token_loop f s tokens ≡ insert_all (pieces b',' s) tokens
unfolding token_loop insert_all
token_loop-pieces zero s tokens h = absurd (omega arith)
token_loop-pieces (suc f) s tokens h = elim (Option-cases (find_byte b',' s)) [
  | inl e ↦ rw (e, pieces_alone b',' s e, token_loop) refl
  | inr (n, e) ↦
      rw (e, pieces_found b',' s n e, token_loop)
        (token_loop-pieces f (drop (suc n) s) (insert_token (trim_http_token (take n s)) tokens)
          (omega (arith, length-drop_found b',' s n e)))
]
