-- ===== src/Endpoints/Fill.antt =====
-- What `fillMemory` of internal/handlers/memory.go leaves in the bytes.
use hotpod.Prelude.{
  ℕ, zero, suc, ◌+◌, ◌-◌, ◌*◌, ◌%◌, ◌≤◌, ◌<◌, ◌≡◌, refl, Option, none, some, ltb, leb, ◌==◌,
  if◌then◌else◌, arith, lt→ltb, ◌∙◌, ap, Bool-cases, inl, inr,
}
use hotpod.Prelude.Text.{codes, text_eq}
use hotpod.Endpoints.Memory.{Bytes, put, byte_of, put_word, fill_words, fill_each, fill_memory}

-- The bytes that came out, index by index.
abbrev pub Holds : (ℕ → ℕ) → Option Bytes → Type 0
Holds at none = ⊥
Holds at (some bytes) = (j : ℕ) → bytes j ≡ at j

abbrev put_at : ℕ → ℕ → Bytes → Bytes
put_at i v bytes j = if j == i then v else bytes j

put-Holds :
    (n i v : ℕ) (b : Bytes) (o : Option Bytes)
    → i < n
    → Holds b o
    → Holds (put_at i v b) (put n i v o)
unfolding put
put-Holds n i v b none h e = e
put-Holds n i v b (some bytes) h e = rw (lt→ltb i n h) (λ j. ground (arith, e j))

-- The bytes after a word is written at `i`.
abbrev word_at : ℕ → ℕ → Bytes → Bytes
word_at i v b j = if leb i j then (if ltb j (i + 8) then byte_of v (8 * (j - i)) else b j) else b j

Holds-eq : (a b : Bytes) (o : Option Bytes) → ((j : ℕ) → a j ≡ b j) → Holds a o → Holds b o
Holds-eq a b none e h = h
Holds-eq a b (some bytes) e h = λ j. h j ∙ e j

word_at_lem :
    (i v : ℕ) (b : Bytes) (j : ℕ)
    → put_at
        (i + 7)
        (byte_of v 56)
        (put_at (i + 6) (byte_of v 48) (
          put_at (i + 5) (byte_of v 40) (
            put_at (i + 4) (byte_of v 32) (
              put_at (i + 3) (byte_of v 24) (
                put_at
                  (i + 2)
                  (byte_of v 16)
                  (put_at (i + 1) (byte_of v 8) (put_at i (byte_of v 0) b)))))))
        j
      ≡ word_at i v b j
word_at_lem i v b j = ground arith

put_word-Holds :
    (n i v : ℕ) (b : Bytes) (o : Option Bytes)
    → i + 8 ≤ n
    → Holds b o
    → Holds (word_at i v b) (put_word n i v o)
unfolding put_word
put_word-Holds n i v b o h e = Holds-eq _ _ _ (word_at_lem i v b) (
    put-Holds n (i + 7) _ _ _ (omega arith) (
      put-Holds n (i + 6) _ _ _ (omega arith) (
        put-Holds n (i + 5) _ _ _ (omega arith) (
          put-Holds n (i + 4) _ _ _ (omega arith) (
            put-Holds n (i + 3) _ _ _ (omega arith) (
              put-Holds n (i + 2) _ _ _ (omega arith) (
                put-Holds n (i + 1) _ _ _ (omega arith) (put-Holds n i _ _ _ (omega arith) e))))))))

-- From `i` to before `k` one function, else the other.
abbrev between : ℕ → ℕ → (ℕ → ℕ) → Bytes → Bytes
between i k new old j = if leb i j then (if ltb j k then new j else old j) else old j

fill_each-Holds :
    (left : ℕ) (byte : ℕ → ℕ) (n i : ℕ) (b : Bytes) (o : Option Bytes)
    → i + left ≤ n
    → Holds b o
    → Holds (between i (i + left) (λ j. byte j % 256) b) (fill_each left byte n i o)
unfolding fill_each
fill_each-Holds zero byte n i b o h e = Holds-eq _ _ _ (λ j. ground arith) e
fill_each-Holds (suc left) byte n i b o h e =
    Holds-eq (between (suc i) (suc i + left) (λ j. byte j % 256) (put_at i (byte i % 256) b)) _ _
      (λ j. ground (arith, λ (q : j ≡ i). ap byte q))
      (fill_each-Holds left byte n (suc i) _ _ (omega arith)
        (put-Holds n i (byte i % 256) b o (omega arith) e))

-- The byte at `j` of words that are written one after the other.
abbrev pub word_byte : (ℕ → ℕ) → ℕ → ℕ
word_byte words j = byte_of (words (j - j % 8)) (8 * (j % 8))

word_byte_lem :
    (words : ℕ → ℕ) (i j : ℕ)
    → i % 8 ≡ 0
    → i ≤ j
    → j < i + 8
    → byte_of (words i) (8 * (j - i)) ≡ word_byte words j
word_byte_lem words i j m l u =
    let p : i ≡ j - j % 8 = omega arith in let q : j - i ≡ j % 8 = omega arith in rw q (rw p refl)

fill_words-Holds :
    (fuel : ℕ) (words : ℕ → ℕ) (n i : ℕ) (b : Bytes) (o : Option Bytes)
    → i % 8 ≡ 0
    → n < fuel + i
    → i ≤ n
    → Holds b o
    → Holds (between i (n - n % 8) (word_byte words) b) (fill_words fuel words n i o)
unfolding fill_words
fill_words-Holds zero words n i b o m f h e = absurd (omega arith)
fill_words-Holds (suc fuel) words n i b o m f h e = elim (Bool-cases (leb (i + 8) n)) [
  | inr last ↦ rw last (Holds-eq b _ _ (λ j. ground arith) e)
  | inl more ↦ rw more (
      Holds-eq (between (i + 8) (n - n % 8) (word_byte words) (word_at i (words i) b)) _ _
        (λ j. ground (arith, word_byte_lem words i j m))
        (fill_words-Holds fuel words n (i + 8) _ _ (omega arith) (omega arith) (ground arith)
          (put_word-Holds n i (words i) b o (ground arith) e)))
]

-- The bytes below `n` that came out.
abbrev pub Filled : ℕ → (ℕ → ℕ) → Option Bytes → Type 0
Filled n at none = ⊥
Filled n at (some bytes) = (j : ℕ) → j < n → bytes j ≡ at j

Holds-Filled :
    (n : ℕ) (a at : ℕ → ℕ) (o : Option Bytes)
    → ((j : ℕ) → j < n → a j ≡ at j)
    → Holds a o
    → Filled n at o
Holds-Filled n a at none e h = h
Holds-Filled n a at (some bytes) e h = λ j l. h j ∙ e j l

-- Every byte is covered: by a word as far as whole words go, and by itself behind them.
abbrev pub random_bytes : (ℕ → ℕ) → (ℕ → ℕ) → ℕ → ℕ → ℕ
random_bytes words halves n j = if ltb j (n - n % 8) then word_byte words j else halves j % 256

-- `fillMemory` never writes out of range, for any number of bytes. The pattern "zero" leaves the bytes as
-- they are, "sequential" makes each its index modulo 256, and "random" covers every byte: it takes it from
-- the random word of its group of eight, low byte first, or, behind the last whole group, from a random
-- number of its own.
pub fill_memory-Filled :
    (words halves : ℕ → ℕ) (n : ℕ) (bytes : Bytes)
    → Filled n bytes (fill_memory words halves (codes "zero") n bytes)
      × Filled n (λ j. j % 256) (fill_memory words halves (codes "sequential") n bytes)
      × Filled n (random_bytes words halves n) (fill_memory words halves (codes "random") n bytes)
unfolding fill_memory text_eq
fill_memory-Filled words halves n bytes = (
  λ j l. refl,
  Holds-Filled n _ _ _ (λ j l. ground arith)
      (fill_each-Holds n (λ i. i) n 0 bytes (some bytes) (omega arith) (λ j. refl)),
  Holds-Filled n _ _ _ (λ j l. ground arith)
      (fill_each-Holds (n % 8) halves n (n - n % 8) _ _ (omega arith) (
        fill_words-Holds (suc n) words n 0 bytes (some bytes) refl (omega arith) (omega arith)
          (λ j. refl))),
)
