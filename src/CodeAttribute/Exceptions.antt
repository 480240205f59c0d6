-- ===== src/CodeAttribute/Exceptions.antt =====
-- src/visitors/code_attribute.c, `exception_table`: the table that the parser and the editor append to.
use jni2hook.Base.{ℕ, ◌≤◌, ◌≡◌, Bool, [], ◌∷◌, ◌++◌, length, Result, ok, arith}
use jni2hook.ConstantPool.Pool.{max_count}
use jni2hook.NodeList.Growth.{NodeList, list_reserve, list_append}
use jni2hook.NodeList.Editing.{append_inv}
use jni2hook.CodeAttribute.Codec.{ExceptionEntry, exception_entry_size}

unfoldable pub exception_table_init : NodeList ExceptionEntry
exception_table_init = record { items = []; capacity = 0 }

module _ (grants : ℕ → Bool) where
  unfoldable pub exception_table_reserve :
      NodeList ExceptionEntry → ℕ → Result (NodeList ExceptionEntry)
  exception_table_reserve table capacity = list_reserve grants exception_entry_size table capacity

  unfoldable pub exception_table_append :
      NodeList ExceptionEntry → ExceptionEntry → Result (NodeList ExceptionEntry)
  exception_table_append table entry = list_append grants exception_entry_size 4 entry table

-- Appending an exception to a table of at most 65535 within its array, when it succeeds, puts it
-- last, and the table is again of at most 65535 and within its array.
exception_table_append-last :
    (grants : ℕ → Bool) (table : NodeList ExceptionEntry) (entry : ExceptionEntry)
    (table' : NodeList ExceptionEntry)
    → length table.items ≤ table.capacity
    → length table.items ≤ max_count
    → exception_table_append grants table entry ≡ ok table'
    → (table'.items ≡ table.items ++ (entry ∷ []))
      × (length table'.items ≤ table'.capacity)
      × (length table'.items ≤ max_count)
unfolding exception_table_append
exception_table_append-last grants table entry table' within counted h =
    append_inv grants exception_entry_size 4 entry table table' (omega arith) within counted h
