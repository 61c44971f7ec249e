-- ===== src/OauthCooldown/Zeros.antt =====
-- jsonHintString of internal/proxy/oauth_cooldown.go at numbers that end in a zero.
use clipal.Common.{ℕ, ◌≡◌, refl, ap, Bool, true, ◌==◌, [], ◌∷◌, ◌++◌, Text, trim_space, arith}
use clipal.Clock.{Time}
use clipal.Json.{number}
use clipal.OauthCooldown.Hints.{
  HintDecoders, trim_right, json_hint_string, oauth_duration_from_json_hint,
}

trim_right-cut :
    (cut : ℕ → Bool) (s : Text) (c : ℕ)
    → cut c ≡ true
    → trim_right cut (s ++ c ∷ []) ≡ trim_right cut s
unfolding trim_right
trim_right-cut cut [] c h = ground arith
trim_right-cut cut (d ∷ s) c h = ground (arith, trim_right-cut cut s c h)

json_hint_string_zero :
    (dec : HintDecoders) (raw shorter digits : Text)
    → dec.format_float raw ≡ digits ++ b'0' ∷ []
    → dec.format_float shorter ≡ digits
    → json_hint_string dec (number raw) ≡ json_hint_string dec (number shorter)
unfolding json_hint_string
json_hint_string_zero dec raw shorter digits h k =
    rw (h, k)
      (ap (λ s. trim_space (trim_right (λ c. c == b'.') s))
        (trim_right-cut (λ c. c == b'0') digits b'0' refl))

-- A number that is formatted with a zero at its end, such as 60 seconds, is read as the number
-- without that zero, such as 6 seconds, under whatever key of a body it stands: the zeros that are
-- taken off as zeros behind a point may be those of a whole number.
pub oauth_duration_from_json_hint_zero :
    (dec : HintDecoders) (key raw shorter digits : Text) (now : Time)
    → dec.format_float raw ≡ digits ++ b'0' ∷ []
    → dec.format_float shorter ≡ digits
    → oauth_duration_from_json_hint dec key (number raw) now
      ≡ oauth_duration_from_json_hint dec key (number shorter) now
unfolding oauth_duration_from_json_hint
oauth_duration_from_json_hint_zero dec key raw shorter digits now h k =
    rw (json_hint_string_zero dec raw shorter digits h k) refl
