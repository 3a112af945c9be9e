-- ===== src/Prelude/Uuid.antt =====
-- `uuid.UUID` as its 128-bit number, and its canonical text. Texts are of fixed width with
-- lower-case digits, so they are ordered as the numbers are.
use Prim.Native.Nat.{ℕ, zero, suc, ◌/◌, ◌%◌, ◌^◌}
use Prim.Native.String.{String, ◌++◌}
use mathlib.Core.Path.{◌≡◌, refl}
use mathlib.Core.List.{List, [], ◌∷◌}

abbrev pub Uuid : Type 0
Uuid = ℕ

abbrev digits : List String
digits =
    "0" ∷ "1" ∷ "2" ∷ "3" ∷ "4" ∷ "5" ∷ "6" ∷ "7" ∷ "8" ∷ "9" ∷ "a" ∷ "b" ∷ "c" ∷ "d" ∷ "e" ∷ "f"
    ∷ []

digit_at : List String → ℕ → String
digit_at [] n = ""
digit_at (d ∷ ds) zero = d
digit_at (d ∷ ds) (suc n) = digit_at ds n

-- The last `k` hexadecimal digits of `v`.
hex : ℕ → ℕ → String
hex zero v = ""
hex (suc k) v = hex k (v / 16) ++ digit_at digits (v % 16)

-- `str(uuid)`
unfoldable pub uuid_str : Uuid → String
unfolding hex digit_at
uuid_str v =
    hex 8 (v / 2 ^ 96)
    ++ ("-"
        ++ (hex 4 (v / 2 ^ 80)
            ++ ("-" ++ (hex 4 (v / 2 ^ 64) ++ ("-" ++ (hex 4 (v / 2 ^ 48) ++ ("-" ++ hex 12 v)))))))

uuid_str_small :
    uuid_str 0x123456781234567812345678123456ab ≡ "12345678-1234-5678-1234-5678123456ab"
unfolding uuid_str
uuid_str_small = refl
