-- ===== src/ByteStream/Ends.antt =====
-- src/byte_stream.c, whether a run can end with a cursor that has failed.
use jni2hook.Base.{ℕ, zero, suc, ◌≡◌, Bool, true, [], ok, ClassfileStatus, arith, bind-eq-ok}
use jni2hook.ByteStream.Cursor.{
  ByteCursor, Reader, ◌>>=◌, pure, fail, check, require, allocate, reserve, bytes_or_truncated,
  read_many, expect_end,
}

-- `p` succeeds with a cursor in order only: after any cursor, or after one that was in order.
pub record EndsFine {A : Type 0} (p : Reader A) : Type 0 where
  pub run : (c : ByteCursor) {a : A} {d : ByteCursor} → p c ≡ ok (a, d) → d.fine ≡ true

pub record KeepsFine {A : Type 0} (p : Reader A) : Type 0 where
  pub run :
      (c : ByteCursor) {a : A} {d : ByteCursor} → c.fine ≡ true → p c ≡ ok (a, d) → d.fine ≡ true

module _ {A B : Type 0} (p : Reader A) (f : A → Reader B) where
  pub EndsFine-bind : ((a : A) → EndsFine (f a)) → EndsFine (p >>= f)
  unfolding ◌>>=◌
  EndsFine-bind h = record {
    run = λ c e.
        let ((a, m), first, second) = bind-eq-ok (p c) (λ (a, d). f a d) e in (h a).run m second;
  }

  pub EndsFine-then : EndsFine p → ((a : A) → KeepsFine (f a)) → EndsFine (p >>= f)
  unfolding ◌>>=◌
  EndsFine-then h k = record {
    run = λ c e.
        let ((a, m), first, second) = bind-eq-ok (p c) (λ (a, d). f a d) e in
        (k a).run m (h.run c first) second;
  }

  pub KeepsFine-bind : KeepsFine p → ((a : A) → KeepsFine (f a)) → KeepsFine (p >>= f)
  unfolding ◌>>=◌
  KeepsFine-bind h k = record {
    run = λ c was e.
        let ((a, m), first, second) = bind-eq-ok (p c) (λ (a, d). f a d) e in
        (k a).run m (h.run c was first) second;
  }

pub KeepsFine-EndsFine : {A : Type 0} {p : Reader A} → EndsFine p → KeepsFine p
KeepsFine-EndsFine h = record { run = λ c was e. h.run c e }

pub KeepsFine-pure : {A : Type 0} (a : A) → KeepsFine (pure a)
unfolding pure
KeepsFine-pure a = record { run = λ c was e. ground arith }

pub EndsFine-fail : {A : Type 0} (e : ClassfileStatus) → EndsFine (fail {A = A} e)
unfolding fail
EndsFine-fail x = record { run = λ c e. cc }

pub EndsFine-check : (e : ClassfileStatus) → EndsFine (check e)
unfolding check
EndsFine-check x = record { run = λ c e. ground arith }

pub KeepsFine-require : (b : Bool) (e : ClassfileStatus) → KeepsFine (require b e)
unfolding require
KeepsFine-require b x = record { run = λ c was e. ground arith }

pub KeepsFine-allocate : (grants : ℕ → Bool) (n : ℕ) → KeepsFine (allocate grants n)
unfolding allocate
KeepsFine-allocate grants n = KeepsFine-require _ _

pub KeepsFine-reserve : (grants : ℕ → Bool) (n m : ℕ) → KeepsFine (reserve grants n m)
unfolding reserve
KeepsFine-reserve grants n m = KeepsFine-require _ _

pub EndsFine-bytes : (n : ℕ) → EndsFine (bytes_or_truncated n)
unfolding bytes_or_truncated
EndsFine-bytes n = record { run = λ c e. ground arith }

pub KeepsFine-many :
    {A : Type 0} (count : ℕ) (body : Reader A) → KeepsFine body → KeepsFine (read_many count body)
unfolding read_many
KeepsFine-many zero body h = KeepsFine-pure []
KeepsFine-many (suc count) body h =
    KeepsFine-bind _ _ h
      λ a. KeepsFine-bind _ _ (KeepsFine-many count body h) λ others. KeepsFine-pure _

pub KeepsFine-end : KeepsFine expect_end
unfolding expect_end
KeepsFine-end = record { run = λ c was e. ground arith }
