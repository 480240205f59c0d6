-- ===== src/ByteStream/Buffer.antt =====
-- src/byte_stream.c, `byte_buffer`: a growable writer whose failure latches.
-- `written` is the block `data` up to `size`, so `size` is its length. Whether the allocator grants
-- a request of so many bytes is the parameter `grants`, for `malloc`, `calloc` and `realloc` alike.
use jni2hook.Base.{
  ℕ, zero, suc, ◌+◌, ◌*◌, ◌/◌, ◌%◌, ◌^◌, Bool, true, false, ◌||◌, not, List, [], ◌∷◌, ◌++◌, length,
  if◌then◌else◌, ltb, leb, ◌==◌,
}

pub record ByteBuffer : Type 0 where
  pub written : List ℕ
  pub capacity : ℕ
  pub fine : Bool

abbrev pub Writer : Type 0
Writer = ByteBuffer → ByteBuffer

infixl 5 ◌>>◌
unfoldable pub ◌>>◌ : Writer → Writer → Writer
◌>>◌ w v b = v (w b)

-- No statement at all.
abbrev pub skip : Writer
skip b = b

unfoldable pub byte_buffer_init : ByteBuffer
byte_buffer_init = record { written = []; capacity = 0; fine = true }

unfoldable pub byte_buffer_ok : ByteBuffer → Bool
byte_buffer_ok b = b.fine

abbrev pub size_mod : ℕ
size_mod = 2 ^ 64

-- `while (capacity < need) capacity *= 2;` over `size_t`, with fuel.
unfoldable pub double_until : ℕ → ℕ → ℕ → ℕ
double_until zero capacity need = capacity
double_until (suc fuel) capacity need =
    let more = double_until fuel (capacity * 2 % size_mod) need in
    if ltb capacity need then more else capacity

-- A capacity doubles less than 64 times before it passes every `size_t` below 2 ^ 63.
abbrev pub grown_capacity : ℕ → ℕ → ℕ
grown_capacity capacity need = double_until 64 (if capacity == 0 then 4096 else capacity) need

-- Stores behind what is written, once there is room for them.
abbrev pub store : List ℕ → ByteBuffer → ByteBuffer
store bytes b = if b.fine then record b { written = b.written ++ bytes } else b

module _ (grants : ℕ → Bool) where
  unfoldable pub byte_buffer_reserve : ℕ → Writer
  byte_buffer_reserve extra b =
      let need = (length b.written + extra) % size_mod in
      let capacity = grown_capacity b.capacity need in
      if not b.fine || leb need b.capacity
      then b
      else (if grants capacity then record b { capacity = capacity } else record b { fine = false })

  unfoldable pub byte_buffer_u1 : ℕ → Writer
  byte_buffer_u1 value b = store (value % 256 ∷ []) (byte_buffer_reserve 1 b)

  unfoldable pub byte_buffer_u2 : ℕ → Writer
  byte_buffer_u2 value b = store (value / 256 % 256 ∷ value % 256 ∷ []) (byte_buffer_reserve 2 b)

  unfoldable pub byte_buffer_u4 : ℕ → Writer
  byte_buffer_u4 value b =
      store (value / 16777216 % 256 ∷ value / 65536 % 256 ∷ value / 256 % 256 ∷ value % 256 ∷ [])
        (byte_buffer_reserve 4 b)

  unfoldable pub byte_buffer_bytes : List ℕ → Writer
  byte_buffer_bytes bytes b =
      if length bytes == 0 then b else store bytes (byte_buffer_reserve (length bytes) b)

-- `for (i = 0; i < count; i++)` around a body that writes the next element.
unfoldable pub write_many : {A : Type 0} → (A → Writer) → List A → Writer
write_many body [] = skip
write_many body (a ∷ others) = body a >> write_many body others
