-- ===== src/Api/Pagination/Tokens.antt =====
-- A token is the base64 text without its padding, which decoding puts on again.
use projects_api.Common.{
  ℕ, suc, ◌+◌, ◌-◌, ◌*◌, ◌/◌, ◌%◌, Text, ◌≡◌, refl, List, [], ◌∷◌, length, arith,
}
use projects_api.Base64.{sextet_char, urlsafe_b64encode}
use projects_api.Base64.RoundTrip.{sextet_char-ne-pad}
use projects_api.Api.Pagination.{strip_pads, padded}

strip_sextet : (d : ℕ) (s : Text) → strip_pads (sextet_char d ∷ s) ≡ sextet_char d ∷ strip_pads s
unfolding strip_pads
strip_sextet d s = rw (sextet_char-ne-pad d) refl

padded_group : (a b c d : ℕ) (s : Text) → padded (a ∷ b ∷ c ∷ d ∷ s) ≡ a ∷ b ∷ c ∷ d ∷ padded s
unfolding padded
padded_group a b c d s =
    let count : (4 - suc (suc (suc (suc (length s)))) % 4) % 4 ≡ (4 - length s % 4) % 4 =
      omega arith in
    rw count refl

pub padded-strip_pads :
    (bytes : List ℕ) → padded (strip_pads (urlsafe_b64encode bytes)) ≡ urlsafe_b64encode bytes
unfolding urlsafe_b64encode
padded-strip_pads [] = unfold strip_pads padded in refl
padded-strip_pads (a ∷ []) =
    rw (strip_sextet (a / 4), strip_sextet (a % 4 * 16)) (unfold strip_pads padded in refl)
padded-strip_pads (a ∷ b ∷ []) =
    rw (strip_sextet (a / 4), strip_sextet (a % 4 * 16 + b / 16), strip_sextet (b % 16 * 4))
      (unfold strip_pads padded in refl)
padded-strip_pads (a ∷ b ∷ c ∷ bytes) =
    rw
      (
        strip_sextet (a / 4),
        strip_sextet (a % 4 * 16 + b / 16),
        strip_sextet (b % 16 * 4 + c / 64),
        strip_sextet (c % 64),
        padded_group,
        padded-strip_pads bytes,
      )
      refl
