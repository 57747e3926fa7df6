-- ===== src/Auth/Phc.antt =====
-- The text of a stored password hash, as internal/service/auth/password.go prints and reads it: its two
-- formats, and strings.Split at "$". How Go prints a number in decimal and scans one at the start of a
-- text (`%d` of package fmt) are parameters.
use Prim.Native.Char.{Char, code}
use Prim.Native.String.{String, [], ◌∷◌, ◌++◌}
use text.Mathlib.TextLemmas.{nil-append, cons-append, append_assoc}
use mathlib.Core.Path.{subst}
use mathlib.Core.List.{List, [] as []ᴸ, ◌∷◌ as ◌∷ᴸ◌}
use imgli.Common.{
  ℕ, ◌*◌, ◌^◌, ◌<◌, ◌≡◌, refl, sym, ◌∙◌, ap, Bool, true, not, ◌&&◌, Option, none, some, arith, ◌==◌,
  ==_refl, ltb, if◌then◌else◌,
}

-- m, t and p of an encoded hash.
pub record Cost : Type 0 where
  pub memory : ℕ
  pub time : ℕ
  pub threads : ℕ

abbrev pub argon_cost : Cost
argon_cost = record { memory = 64 * 1024; time = 1; threads = 4 }

pub record Decimal : Type 0 where
  pub print_d : ℕ → String
  pub scan_d : String → Option (ℕ × String)

abbrev is_dollar : Char → Bool
is_dollar c = code c == 36

abbrev cons_head : Char → List String → List String
cons_head c []ᴸ = (c ∷ []) ∷ᴸ []ᴸ
cons_head c (s ∷ᴸ rest) = (c ∷ s) ∷ᴸ rest

-- strings.Split(s, "$")
unfoldable pub split_dollar : String → List String
split_dollar [] = [] ∷ᴸ []ᴸ
split_dollar (c ∷ s) =
    let rest = split_dollar s in if is_dollar c then [] ∷ᴸ rest else cons_head c rest

-- A literal of a format that is scanned: the text after it.
unfoldable pub expect : String → String → Option String
expect [] s = some s
expect (c ∷ p) [] = none
expect (c ∷ p) (d ∷ s) = let rest = expect p s in if code c == code d then rest else none

module _ (d : Decimal) where
  -- fmt.Sprintf("m=%d,t=%d,p=%d", ...)
  unfoldable pub print_cost : Cost → String
  print_cost c =
      "m="
      ++ (d.print_d c.memory ++ (",t=" ++ (d.print_d c.time ++ (",p=" ++ d.print_d c.threads))))

  -- fmt.Sprintf("$argon2id$v=%d$m=%d,t=%d,p=%d$%s$%s", ...)
  unfoldable pub print_hash : ℕ → Cost → String → String → String
  print_hash version c salt key =
      "$argon2id$v="
      ++ (d.print_d version ++ ("$" ++ (print_cost c ++ ("$" ++ (salt ++ ("$" ++ key))))))

  -- One `literal%d` of a format.
  abbrev pub scan_field : String → String → Option (ℕ × String)
  scan_field literal s = elim (expect literal s) [ none ↦ none | some rest ↦ d.scan_d rest ]

  -- fmt.Sscanf(s, "m=%d,t=%d,p=%d", &m, &t, &p) into two uint32 and a uint8.
  unfoldable pub scan_cost : String → Option Cost
  scan_cost s = elim (scan_field "m=" s) [
    | none ↦ none
    | some m ↦ elim (scan_field ",t=" m.1) [
      | none ↦ none
      | some t ↦ elim (scan_field ",p=" t.1) [
        | none ↦ none
        | some p ↦
            if ltb m.0 (2 ^ 32) && ltb t.0 (2 ^ 32) && ltb p.0 (2 ^ 8)
            then some (record { memory = m.0; time = t.0; threads = p.0 })
            else none
      ]
    ]
  ]

unfoldable pub no_dollar : String → Bool
no_dollar [] = true
no_dollar (c ∷ s) = let rest = no_dollar s in not (is_dollar c) && rest

split-plain : (s : String) → no_dollar s ≡ true → split_dollar s ≡ s ∷ᴸ []ᴸ
unfolding split_dollar no_dollar
split-plain [] h = refl
split-plain (c ∷ s) h = ground (arith, split-plain s)

dollar : (b : String) → "$" ++ b ≡ "$" ∷ b
dollar b = cons-append "$" [] b ∙ ap (λ s. "$" ∷ s) (nil-append b)

-- A field ends at the next "$".
split-field :
    (a b : String) → no_dollar a ≡ true → split_dollar (a ++ ("$" ++ b)) ≡ a ∷ᴸ split_dollar b
unfolding split_dollar no_dollar
split-field [] b h = rw (nil-append ("$" ++ b), dollar b) refl
split-field (c ∷ a) b h = rw (cons-append c a ("$" ++ b)) (ground (arith, split-field a b))

no_dollar-append :
    (a b : String) → no_dollar a ≡ true → no_dollar b ≡ true → no_dollar (a ++ b) ≡ true
unfolding no_dollar
no_dollar-append [] b h k = rw (nil-append b) k
no_dollar-append (c ∷ a) b h k = rw (cons-append c a b) (ground (arith, no_dollar-append a b))

expect-append : (p s : String) → expect p (p ++ s) ≡ some s
unfolding expect
expect-append [] s = ap some (nil-append s)
expect-append (c ∷ p) s =
    rw (cons-append c p s) (ground (arith, expect-append p s, ==_refl (code c)))

-- What a decimal is relied on for: its digits are no "$", and it is scanned up to a comma or the end.
pub record IsDecimal (d : Decimal) : Type 0 where
  pub plain : (n : ℕ) → no_dollar (d.print_d n) ≡ true
  pub scanned : (n : ℕ) (s : String) → d.scan_d (d.print_d n ++ ("," ∷ s)) ≡ some (n, "," ∷ s)
  pub ended : (n : ℕ) → d.scan_d (d.print_d n) ≡ some (n, [])

module _ (d : Decimal) (laws : IsDecimal d) where
  field :
      (literal after : String) (n : ℕ) (s : String)
      → scan_field d literal (literal ++ (d.print_d n ++ (("," ∷ after) ++ s)))
        ≡ some (n, ("," ∷ after) ++ s)
  field literal after n s =
      let tail : String = ("," ∷ after) ++ s in
      rw (scan_field, expect-append literal (d.print_d n ++ tail))
        (subst (λ t. d.scan_d (d.print_d n ++ t) ≡ some (n, t)) (sym (cons-append "," after s))
          (laws.scanned n (after ++ s)))

  last_field :
      (literal : String) (n : ℕ) → scan_field d literal (literal ++ d.print_d n) ≡ some (n, [])
  last_field literal n = rw (scan_field, expect-append literal (d.print_d n)) (laws.ended n)

  -- The two formats agree: a cost that fits its fields is scanned as it was printed.
  pub scan_cost-print_cost :
      (c : Cost)
      → c.memory < 2 ^ 32
      → c.time < 2 ^ 32
      → c.threads < 2 ^ 8
      → scan_cost d (print_cost d c) ≡ some c
  unfolding scan_cost print_cost
  scan_cost-print_cost c m t p =
      let last = ",p=" ++ d.print_d c.threads in
      let middle = ",t=" ++ (d.print_d c.time ++ last) in
      let m_read : scan_field d "m=" (print_cost d c) ≡ some (c.memory, middle) =
        field "m=" "t=" c.memory (d.print_d c.time ++ last) in
      let t_read : scan_field d ",t=" middle ≡ some (c.time, last) =
        field ",t=" "p=" c.time (d.print_d c.threads) in
      ground (arith, m_read, t_read, last_field ",p=" c.threads)

  cost-plain : (c : Cost) → no_dollar (print_cost d c) ≡ true
  unfolding print_cost no_dollar
  cost-plain c =
      let threads = ",p=" ++ d.print_d c.threads in
      let time = ",t=" ++ (d.print_d c.time ++ threads) in
      no_dollar-append "m=" (d.print_d c.memory ++ time) refl (
        no_dollar-append (d.print_d c.memory) time (laws.plain c.memory) (
          no_dollar-append ",t=" (d.print_d c.time ++ threads) refl (
            no_dollar-append (d.print_d c.time) threads (laws.plain c.time)
              (no_dollar-append ",p=" (d.print_d c.threads) refl (laws.plain c.threads)))))

  -- The six fields of a printed hash.
  pub split_dollar-print_hash :
      (version : ℕ) (c : Cost) (salt key : String)
      → no_dollar salt ≡ true
      → no_dollar key ≡ true
      → split_dollar (print_hash d version c salt key)
        ≡ "" ∷ᴸ "argon2id" ∷ᴸ ("v=" ++ d.print_d version) ∷ᴸ print_cost d c ∷ᴸ salt ∷ᴸ key ∷ᴸ []ᴸ
  unfolding print_hash no_dollar
  split_dollar-print_hash version c salt key s k =
      let v = d.print_d version in
      let rest = print_cost d c ++ ("$" ++ (salt ++ ("$" ++ key))) in
      let fields : "$argon2id$v=" ++ (v ++ ("$" ++ rest))
          ≡ [] ++ ("$" ++ ("argon2id" ++ ("$" ++ (("v=" ++ v) ++ ("$" ++ rest))))) =
        append_assoc "$" "argon2id$v=" (v ++ ("$" ++ rest))
        ∙ ap (λ t. "$" ++ t)
            (append_assoc "argon2id" "$v=" (v ++ ("$" ++ rest))
              ∙ ap (λ t. "argon2id" ++ t)
                  (append_assoc "$" "v=" (v ++ ("$" ++ rest))
                    ∙ ap (λ t. "$" ++ t) (sym (append_assoc "v=" v ("$" ++ rest)))))
        ∙ sym (nil-append ("$" ++ ("argon2id" ++ ("$" ++ (("v=" ++ v) ++ ("$" ++ rest)))))) in
      ap split_dollar fields
      ∙ split-field [] ("argon2id" ++ ("$" ++ (("v=" ++ v) ++ ("$" ++ rest)))) refl
      ∙ ap (λ l. "" ∷ᴸ l)
          (split-field "argon2id" (("v=" ++ v) ++ ("$" ++ rest)) refl
            ∙ ap (λ l. "argon2id" ∷ᴸ l)
                (split-field ("v=" ++ v) rest (no_dollar-append "v=" v refl (laws.plain version))
                  ∙ ap (λ l. ("v=" ++ v) ∷ᴸ l)
                      (split-field (print_cost d c) (salt ++ ("$" ++ key)) (cost-plain c)
                        ∙ ap (λ l. print_cost d c ∷ᴸ l)
                            (split-field salt key s ∙ ap (λ l. salt ∷ᴸ l) (split-plain key k)))))
