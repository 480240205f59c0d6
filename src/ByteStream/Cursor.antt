-- ===== src/ByteStream/Cursor.antt =====
-- src/byte_stream.c, `byte_cursor`: a reader whose failure latches.
-- `ahead` holds the bytes from `p` up to `end`, and `taken` is `p - begin`.
use jni2hook.Base.{
  ℕ, zero, suc, ◌+◌, ◌*◌, ◌<◌, Bool, true, false, ◌||◌, List, [], ◌∷◌, Option, none, some,
  if◌then◌else◌, ltb, ◌==◌, length, take, drop, Result, ok, err, ClassfileStatus, bind,
}

pub record ByteCursor : Type 0 where
  pub ahead : List ℕ
  pub taken : ℕ
  pub fine : Bool

abbrev pub IsByte : ℕ → Type 0
IsByte b = b < 256

unfoldable pub byte_cursor_init : List ℕ → ByteCursor
byte_cursor_init bytes = record { ahead = bytes; taken = 0; fine = true }

unfoldable pub byte_cursor_ok : ByteCursor → Bool
byte_cursor_ok c = c.fine

unfoldable pub byte_cursor_exhausted : ByteCursor → Bool
byte_cursor_exhausted c = length c.ahead == 0

unfoldable pub byte_cursor_offset : ByteCursor → ℕ
byte_cursor_offset c = c.taken

unfoldable pub byte_cursor_remaining : ByteCursor → ℕ
byte_cursor_remaining c = if c.fine then length c.ahead else 0

-- Too little input latches the failure.
unfoldable pub cursor_need : ByteCursor → ℕ → Bool × ByteCursor
cursor_need c n =
    if c.fine
    then (if ltb (length c.ahead) n then (false, record c { fine = false }) else (true, c))
    else (false, c)

-- `c->p += n`
abbrev pub advance : ℕ → ByteCursor → ByteCursor
advance n c = record c { ahead = drop n c.ahead; taken = c.taken + n }

-- The byte at `c->p[i]`; `cursor_need` has been asked before any call.
abbrev pub byte_at : List ℕ → ℕ → ℕ
byte_at [] i = 0
byte_at (b ∷ bs) zero = b
byte_at (b ∷ bs) (suc i) = byte_at bs i

-- What a reading function does to the cursor: `err` leaves the function that called it.
abbrev pub Reader : Type 0 → Type 0
Reader A = ByteCursor → Result (A × ByteCursor)

infixl 5 ◌>>=◌ ◌>>◌
unfoldable pub ◌>>=◌ : {A B : Type 0} → Reader A → (A → Reader B) → Reader B
◌>>=◌ p f c = bind (p c) (λ (a, c'). f a c')

abbrev pub ◌>>◌ : {B : Type 0} → Reader (Unit {0}) → Reader B → Reader B
p >> q = p >>= λ _. q

unfoldable pub pure : {A : Type 0} → A → Reader A
pure a c = ok (a, c)

unfoldable pub fail : {A : Type 0} → ClassfileStatus → Reader A
fail e c = err e

-- One call of a latched read: the value is 0 once the cursor has failed.
abbrev pub latched : {A : Type 0} → ℕ → (List ℕ → A) → A → Reader A
latched n value missing c =
    let (enough, c') = cursor_need c n in
    if enough then ok (value c'.ahead, advance n c') else ok (missing, c')

unfoldable pub byte_cursor_u1 : Reader ℕ
unfolding cursor_need
byte_cursor_u1 = latched 1 (λ p. byte_at p 0) 0

unfoldable pub byte_cursor_u2 : Reader ℕ
unfolding cursor_need
byte_cursor_u2 = latched 2 (λ p. byte_at p 0 * 256 + byte_at p 1) 0

unfoldable pub byte_cursor_u4 : Reader ℕ
unfolding cursor_need
byte_cursor_u4 =
    latched 4 (λ p. byte_at p 0 * 16777216 + byte_at p 1 * 65536 + byte_at p 2 * 256 + byte_at p 3)
      0

-- `none` is the null pointer.
unfoldable pub byte_cursor_bytes : ℕ → Reader (Option (List ℕ))
unfolding cursor_need
byte_cursor_bytes n = latched n (λ p. some (take n p)) none

abbrev found_or_truncated : Option (List ℕ) → Reader (List ℕ)
found_or_truncated none = fail ClassfileStatus.truncated
found_or_truncated (some bytes) = pure bytes

-- `if (!byte_cursor_ok(c)) return e;`
unfoldable pub check : ClassfileStatus → Reader (Unit {0})
check e c = if c.fine then ok (tt, c) else err e

-- `if (!test) return e;`
unfoldable pub require : Bool → ClassfileStatus → Reader (Unit {0})
require b e c = if b then ok (tt, c) else err e

-- `bytes = byte_cursor_bytes(c, n); if (bytes == NULL) return CLASSFILE_ERR_TRUNCATED;`
unfoldable pub bytes_or_truncated : ℕ → Reader (List ℕ)
unfolding byte_cursor_bytes ◌>>=◌ pure fail
bytes_or_truncated n = byte_cursor_bytes n >>= found_or_truncated

-- `malloc(length ? length : 1)` for a copy of a block.
abbrev pub copy_size : ℕ → ℕ
copy_size n = if n == 0 then 1 else n

-- A request to the allocator; a null pointer leaves with CLASSFILE_ERR_OUT_OF_MEMORY.
unfoldable pub allocate : (ℕ → Bool) → ℕ → Reader (Unit {0})
unfolding require
allocate grants n = require (grants n) ClassfileStatus.out_of_memory

-- `reserve(list, count)` on an empty list: a list of no elements asks for nothing.
unfoldable pub reserve : (ℕ → Bool) → ℕ → ℕ → Reader (Unit {0})
unfolding require
reserve grants count stride =
    require (count == 0 || grants (count * stride)) ClassfileStatus.out_of_memory

-- `if (!byte_cursor_exhausted(&c)) return CLASSFILE_ERR_TRAILING_BYTES;`
unfoldable pub expect_end : Reader (Unit {0})
unfolding byte_cursor_exhausted
expect_end c = if byte_cursor_exhausted c then ok (tt, c) else err ClassfileStatus.trailing_bytes

-- `for (i = 0; i < count; i++)` around a body that fills the next element.
unfoldable pub read_many : {A : Type 0} → ℕ → Reader A → Reader (List A)
read_many zero body = pure []
read_many (suc count) body = do a ← body; others ← read_many count body; pure (a ∷ others)

-- A reader that is to use up its input, as a function of the input.
unfoldable pub run_whole : {A : Type 0} → Reader A → List ℕ → Result A
unfolding ◌>>=◌ expect_end pure byte_cursor_init
run_whole p bytes = bind ((do a ← p; expect_end; pure a) (byte_cursor_init bytes)) (λ (a, c). ok a)
