-- ===== src/Lxmf/Utf8.antt =====
-- What `String::from_utf8` of the standard library accepts: the well-formed UTF-8 of RFC 3629.
use lxmf_react_native_rust.Prelude.{
  ℕ, ◌-◌, ◌<◌, ◌≡◌, refl, ap, ◌∙◌, Bool, true, false, ◌&&◌, Option, none, some, [], ◌∷◌, arith,
  Bytes, leb, ◌==◌, if◌then◌else◌,
}

-- How many continuation bytes are still to come, and the range of the next one.
pub record Pending : Type 0 where
  pub need : ℕ
  pub low : ℕ
  pub high : ℕ

abbrev start : Pending
start = record { need = 0; low = 0x80; high = 0xBF }

abbrev wait : ℕ → ℕ → ℕ → Option Pending
wait n lo hi = some (record { need = n; low = lo; high = hi })

lead : ℕ → Option Pending
lead b =
    if leb b 0x7F
    then some start
    else (if leb b 0xC1
        then none
        else (if leb b 0xDF
            then wait 1 0x80 0xBF
            else (if b == 0xE0
                then wait 2 0xA0 0xBF
                else (if b == 0xED
                    then wait 2 0x80 0x9F
                    else (if leb b 0xEF
                        then wait 2 0x80 0xBF
                        else (if b == 0xF0
                            then wait 3 0x90 0xBF
                            else (if leb b 0xF3
                                then wait 3 0x80 0xBF
                                else (if b == 0xF4 then wait 3 0x80 0x8F else none))))))))

next : Pending → ℕ → Option Pending
unfolding lead
next p b =
    if p.need == 0
    then lead b
    else (if leb p.low b && leb b p.high then wait (p.need - 1) 0x80 0xBF else none)

run : Option Pending → Bytes → Bool
unfolding next
run none bs = false
run (some p) [] = p.need == 0
run (some p) (b ∷ bs) = run (next p b) bs

unfoldable pub is_utf8 : Bytes → Bool
unfolding run
is_utf8 bs = run (some start) bs

-- ASCII text is accepted.
abbrev pub AllAscii : Bytes → Type 0
AllAscii [] = Unit {0}
AllAscii (b ∷ bs) = (b < 128) × AllAscii bs

pub is_utf8-ascii : (bs : Bytes) → AllAscii bs → is_utf8 bs ≡ true
unfolding is_utf8
is_utf8-ascii [] h = refl
is_utf8-ascii (b ∷ bs) h = ap (λ p. run p bs) (ascii_next b h.0) ∙ is_utf8-ascii bs h.1
  where
    ascii_next : (b : ℕ) → b < 128 → next start b ≡ some start
    ascii_next b h = unfold next in ground arith
