-- ===== src/Auth/PhcExamples.antt =====
-- A password hash in a notation of strokes: bytes are a number, and a number is as many strokes.
use Prim.Native.Char.{code}
use Prim.Native.String.{String, [], ◌∷◌, ◌++◌, count}
use text.Mathlib.TextLemmas.{nil-append, cons-append}
use imgli.Common.{ℕ, zero, suc, ◌≡◌, ◌↔◌, refl, ap, true, some, arith, ◌==◌, if◌then◌else◌}
use imgli.Auth.Phc.{Decimal, no_dollar}
use imgli.Auth.Password.{Argon, Prints, hash_password, verify_password, hash_password-verify}

strokes : ℕ → String
strokes zero = []
strokes (suc n) = "1" ∷ strokes n

count_strokes : String → ℕ × String
count_strokes [] = (0, [])
count_strokes (c ∷ s) =
    let rest = count_strokes s in if code c == 49 then (suc rest.0, rest.1) else (0, c ∷ s)

abbrev in_strokes : Decimal
in_strokes = record { print_d = strokes; scan_d = λ s. some (count_strokes s) }

strokes-plain : (n : ℕ) → no_dollar (strokes n) ≡ true
unfolding no_dollar strokes
strokes-plain zero = refl
strokes-plain (suc n) = ground (arith, strokes-plain n)

strokes-scanned : (n : ℕ) (s : String) → count_strokes (strokes n ++ ("," ∷ s)) ≡ (n, "," ∷ s)
unfolding count_strokes strokes
strokes-scanned zero s = rw (nil-append ("," ∷ s)) refl
strokes-scanned (suc n) s = rw (cons-append "1" (strokes n) ("," ∷ s), strokes-scanned n s) refl

strokes-ended : (n : ℕ) → count_strokes (strokes n) ≡ (n, [])
unfolding count_strokes strokes
strokes-ended zero = refl
strokes-ended (suc n) = rw (strokes-ended n) refl

abbrev tiny : Argon ℕ
tiny = record {
  decimal = in_strokes;
  version = 19;
  encode = strokes;
  decode = λ s. some (count_strokes s).0;
  bytes_of = count;
  bytes_count = λ b. 32;
  id_key = λ pw salt cost n. pw;
  same_bytes = λ a b. a == b;
}

tiny-Prints : Prints tiny 3
tiny-Prints = record {
  decimal = record {
    plain = strokes-plain;
    scanned = λ n s. ap some (strokes-scanned n s);
    ended = λ n. ap some (strokes-ended n);
  };
  plain = strokes-plain;
  decoded = λ b. ap (λ q. some q.0) (strokes-ended b);
  counted = λ b. refl;
  compared = λ a b. (λ h. ground arith, λ e. ground arith);
}

hash_password-verify_example :
    (verify_password tiny (hash_password tiny 3 "secret") "secret" ≡ true)
    ↔ (count "secret" ≡ count "secret")
hash_password-verify_example = hash_password-verify tiny 3 "secret" "secret" tiny-Prints
