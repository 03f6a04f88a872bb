-- ===== src/Kany/Buffers.antt =====
-- kany.py: the calls of `int.from_bytes`, `array.frombytes`, `array.byteswap` and `tobytes`.
use karaoke_anything.Prelude.{
  ℕ, ◌+◌, ◌*◌, ◌/◌, ◌%◌, ◌^◌, ◌<◌, List, [], ◌∷◌, ◌++◌, take, drop, ◌-◌, none, some, get_elem?,
}
use karaoke_anything.Errors.{Result, ok, err, value_error, index_error, ◌>>=◌}

abbrev pub Bytes : Type 0
Bytes = List ℕ

abbrev pub IsByte : ℕ → Type 0
IsByte b = b < 256

abbrev pub IsWord : ℕ → Type 0
IsWord w = w < 2 ^ 32

-- `payload[a:b]` for a ≤ b
abbrev pub slice : Bytes → ℕ → ℕ → Bytes
slice payload a b = take (b - a) (drop a payload)

-- `payload[i]`
abbrev pub item : Bytes → ℕ → Result ℕ
item payload i = elim (get_elem? payload i) [ none ↦ err index_error | some b ↦ ok b ]

-- `int.from_bytes(data, "big")`, digit by digit
abbrev pub from_digits : ℕ → Bytes → ℕ
from_digits acc [] = acc
from_digits acc (b ∷ rest) = from_digits (acc * 256 + b) rest

abbrev pub from_bytes : Bytes → ℕ
from_bytes = from_digits 0

-- `sys.byteorder`
pub data ByteOrder : Type 0 where
  little big : ByteOrder

pub record Array : Type 0 where
  pub typecode : ℕ
  pub items : List ℕ

-- `array("f", items)`
abbrev pub floats : List ℕ → Array
floats xs = record { typecode = b'f'; items = xs }

abbrev pub little_word : ℕ → ℕ → ℕ → ℕ → ℕ
little_word a b c d = a + 256 * b + 65536 * c + 16777216 * d

-- four bytes of memory as one item
abbrev pub load_word : ByteOrder → ℕ → ℕ → ℕ → ℕ → ℕ
load_word little a b c d = little_word a b c d
load_word big a b c d = little_word d c b a

-- one item as four bytes of memory
abbrev pub store_word : ByteOrder → ℕ → Bytes
store_word little w = w % 256 ∷ w / 256 % 256 ∷ w / 65536 % 256 ∷ w / 16777216 % 256 ∷ []
store_word big w = w / 16777216 % 256 ∷ w / 65536 % 256 ∷ w / 256 % 256 ∷ w % 256 ∷ []

abbrev pub swap_word : ℕ → ℕ
swap_word w = little_word (w / 16777216 % 256) (w / 65536 % 256) (w / 256 % 256) (w % 256)

-- `array.frombytes` raises unless the length is a multiple of the item size
unfoldable pub frombytes : ByteOrder → Bytes → Result (List ℕ)
frombytes order [] = ok []
frombytes order (a ∷ b ∷ c ∷ d ∷ rest) = do
  words ← frombytes order rest
  ok (load_word order a b c d ∷ words)
frombytes order _ = err (value_error "bytes length not a multiple of item size")

unfoldable pub tobytes : ByteOrder → List ℕ → Bytes
tobytes order [] = []
tobytes order (w ∷ words) = store_word order w ++ tobytes order words

unfoldable pub byteswap : List ℕ → List ℕ
byteswap [] = []
byteswap (w ∷ words) = swap_word w ∷ byteswap words

-- `if sys.byteorder != "little": samples.byteswap()`
abbrev pub to_little : ByteOrder → List ℕ → List ℕ
to_little little words = words
to_little big words = byteswap words
