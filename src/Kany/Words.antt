-- ===== src/Kany/Words.antt =====
-- kany.py: the laws of `frombytes`, `tobytes` and `byteswap`, for either byte order of the machine.
use karaoke_anything.Prelude.{
  ℕ, zero, suc, ◌*◌, ◌≡◌, refl, inl, inr, subst, List, [], ◌∷◌, length, All, arith,
}
use karaoke_anything.Errors.{ok, ◌>>=◌, >>=-eq-ok, Result-cases}
use karaoke_anything.Kany.Buffers.{
  Bytes, IsByte, IsWord, ByteOrder, little, big, little_word, load_word, store_word, swap_word,
  frombytes, tobytes, byteswap,
}

load-store :
    (order : ByteOrder) (w : ℕ) → IsWord w → frombytes order (store_word order w) ≡ ok (w ∷ [])
unfolding frombytes
load-store little w h = ground arith
load-store big w h = ground arith

swap_word-swap_word : (w : ℕ) → IsWord w → swap_word (swap_word w) ≡ w
swap_word-swap_word w h = omega arith

little_word-IsWord :
    (a b c d : ℕ) → IsByte a → IsByte b → IsByte c → IsByte d → IsWord (little_word a b c d)
little_word-IsWord a b c d ha hb hc hd = omega arith

swap_little_word :
    (a b c d : ℕ)
    → IsByte a
    → IsByte b
    → IsByte c
    → IsByte d
    → swap_word (little_word a b c d) ≡ little_word d c b a
swap_little_word a b c d ha hb hc hd = omega arith

store-little_word :
    (a b c d : ℕ)
    → IsByte a
    → IsByte b
    → IsByte c
    → IsByte d
    → store_word little (little_word a b c d) ≡ a ∷ b ∷ c ∷ d ∷ []
store-little_word a b c d ha hb hc hd = ground arith

store_big_swap : (w : ℕ) → IsWord w → store_word big (swap_word w) ≡ store_word little w
store_big_swap w h = ground arith

-- reading on a big-endian machine and swapping is reading on a little-endian one
pub frombytes-order :
    (bs : Bytes)
    → All IsByte bs
    → (frombytes big bs >>= λ ws. ok (byteswap ws)) ≡ frombytes little bs
unfolding frombytes byteswap
frombytes-order [] h = refl
frombytes-order (a ∷ []) h = refl
frombytes-order (a ∷ b ∷ []) h = refl
frombytes-order (a ∷ b ∷ c ∷ []) h = refl
frombytes-order (a ∷ b ∷ c ∷ d ∷ rest) h =
    let swapped = swap_little_word d c b a h.1.1.1.0 h.1.1.0 h.1.0 h.0 in
    let rec = frombytes-order rest h.1.1.1.1 in
    elim (Result-cases (frombytes big rest)) [
      | inl (ws, e) ↦ rw (e, ← (rw e at rec)) (cc swapped)
      | inr (x, e) ↦ rw (e, ← (rw e at rec)) refl
    ]

pub tobytes-order : (ws : List ℕ) → All IsWord ws → tobytes big (byteswap ws) ≡ tobytes little ws
unfolding tobytes byteswap
tobytes-order [] h = refl
tobytes-order (w ∷ ws) h = cc (store_big_swap w h.0, tobytes-order ws h.1)

pub frombytes-tobytes : (ws : List ℕ) → All IsWord ws → frombytes little (tobytes little ws) ≡ ok ws
unfolding frombytes tobytes
frombytes-tobytes [] h = refl
frombytes-tobytes (w ∷ ws) h = ground (arith, frombytes-tobytes ws h.1)

pub tobytes-frombytes :
    (bs : Bytes) (ws : List ℕ)
    → All IsByte bs
    → frombytes little bs ≡ ok ws
    → tobytes little ws ≡ bs
unfolding frombytes tobytes
tobytes-frombytes [] ws hb h = ground arith
tobytes-frombytes (a ∷ []) ws hb h = cc
tobytes-frombytes (a ∷ b ∷ []) ws hb h = cc
tobytes-frombytes (a ∷ b ∷ c ∷ []) ws hb h = cc
tobytes-frombytes (a ∷ b ∷ c ∷ d ∷ rest) ws hb h =
    let (words, e, k) = >>=-eq-ok (frombytes little rest) _ h in
    cc (
      k,
      store-little_word a b c d hb.0 hb.1.0 hb.1.1.0 hb.1.1.1.0,
      tobytes-frombytes rest words hb.1.1.1.1 e,
    )

pub frombytes-IsWord :
    (bs : Bytes) (ws : List ℕ) → All IsByte bs → frombytes little bs ≡ ok ws → All IsWord ws
unfolding frombytes
frombytes-IsWord [] ws hb h = subst (All IsWord) {x = []} (cc) tt
frombytes-IsWord (a ∷ []) ws hb h = cc
frombytes-IsWord (a ∷ b ∷ []) ws hb h = cc
frombytes-IsWord (a ∷ b ∷ c ∷ []) ws hb h = cc
frombytes-IsWord (a ∷ b ∷ c ∷ d ∷ rest) ws hb h =
    let (words, e, k) = >>=-eq-ok (frombytes little rest) _ h in
    subst (All IsWord) {x = little_word a b c d ∷ words} (cc k) (
      little_word-IsWord a b c d hb.0 hb.1.0 hb.1.1.0 hb.1.1.1.0,
      frombytes-IsWord rest words hb.1.1.1.1 e,
    )

pub length-tobytes : (order : ByteOrder) (ws : List ℕ) → length (tobytes order ws) ≡ 4 * length ws
unfolding tobytes
length-tobytes order [] = refl
length-tobytes little (w ∷ ws) = omega (arith, length-tobytes little ws)
length-tobytes big (w ∷ ws) = omega (arith, length-tobytes big ws)

pub frombytes-total :
    (order : ByteOrder) (n : ℕ) (bs : Bytes)
    → length bs ≡ 4 * n
    → (ws : List ℕ) × (frombytes order bs ≡ ok ws) × (length ws ≡ n)
unfolding frombytes
frombytes-total order n [] h = ([], refl, omega arith)
frombytes-total order n (a ∷ []) h = absurd (omega arith)
frombytes-total order n (a ∷ b ∷ []) h = absurd (omega arith)
frombytes-total order n (a ∷ b ∷ c ∷ []) h = absurd (omega arith)
frombytes-total order zero (a ∷ b ∷ c ∷ d ∷ rest) h = absurd (omega arith)
frombytes-total order (suc n) (a ∷ b ∷ c ∷ d ∷ rest) h =
    let (ws, e, l) = frombytes-total order n rest (omega arith) in
    (load_word order a b c d ∷ ws, rw e refl, omega arith)

pub tobytes-IsByte : (ws : List ℕ) → All IsByte (tobytes little ws)
unfolding tobytes
tobytes-IsByte [] = tt
tobytes-IsByte (w ∷ ws) =
    (omega arith, (omega arith, (omega arith, (omega arith, tobytes-IsByte ws))))
