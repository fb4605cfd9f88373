-- ===== src/Tests/Text.antt =====
-- fbase64.c at concrete inputs.
use app_chat_again.Base64.RoundTrip.Whole.{base64_round_trip}
use app_chat_again.Prelude.{
  arith, ◌+◌, refl, ◌++◌, ◌≤◌, length, none, ◌<◌, ◌≡◌, some, [], ℕ, ◌∷◌, List,
}
use app_chat_again.Base64.Description.{f_b64_ntop-encoding, encoding, letter}
use app_chat_again.Base64.{group3, f_b64_ntop, f_b64_pton}

-- "Man" is TWFu, and "M" is TQ==.
ntop_man : f_b64_ntop (77 ∷ 97 ∷ 110 ∷ []) 5 ≡ (some 4, b'T' ∷ b'W' ∷ b'F' ∷ b'u' ∷ 0 ∷ [])
unfolding f_b64_ntop group3
ntop_man = refl

-- A bit that the bytes have no place for is refused.
pton_slops : (f_b64_pton (b'T' ∷ b'R' ∷ b'=' ∷ b'=' ∷ []) (some (1 ∷ 1 ∷ 1 ∷ [])) 3).0 ≡ none
unfolding f_b64_pton
pton_slops = refl

f_b64_ntop-encoding_example :
    (4 < 5 → f_b64_ntop (77 ∷ []) 5 ≡ (some 4, b'T' ∷ b'Q' ∷ b'=' ∷ b'=' ∷ 0 ∷ []))
    × (5 ≤ 4 → (f_b64_ntop (77 ∷ []) 5).0 ≡ none)
    × (length (f_b64_ntop (77 ∷ []) 5).1 ≤ 5)
unfolding encoding letter
f_b64_ntop-encoding_example = f_b64_ntop-encoding (77 ∷ []) 5 (omega arith, tt)

base64_round_trip_example :
    (text rest : List ℕ) × (f_b64_ntop (77 ∷ []) 5 ≡ (some (length text), text ++ (0 ∷ [])))
    × (f_b64_pton text (some (1 ∷ 2 ∷ 3 ∷ [])) 3 ≡ (some 1, some (77 ∷ rest)))
    × (1 + length rest ≡ 3)
base64_round_trip_example =
    base64_round_trip (77 ∷ []) (1 ∷ 2 ∷ 3 ∷ []) 5 3 (omega arith, tt) (omega arith) (omega arith)
      (omega arith)
