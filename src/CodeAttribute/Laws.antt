-- ===== src/CodeAttribute/Laws.antt =====
-- src/visitors/code_attribute.c: parsing against writing, and which payloads the parser accepts.
use jni2hook.Base.{
  ℕ, ◌+◌, ◌%◌, ◌<◌, ◌^◌, ◌≡◌, refl, sym, ◌∙◌, subst, List, [], ◌∷◌, ◌++◌, append-nil, append_assoc,
  length, All, arith, ok, Bool, true, false, ltb, ◌⊎◌, inl, inr,
}
use jni2hook.ByteStream.Cursor.{
  ByteCursor, IsByte, Reader, ◌>>=◌, pure, read_many, run_whole, byte_cursor_u2, reserve,
}
use jni2hook.ByteStream.Buffer.{byte_buffer_init, byte_buffer_ok}
use jni2hook.ByteStream.Reads.{Reads, cursor_at}
use jni2hook.ByteStream.Sound.{Took-bytes, bind-inv, ok_parts, true_and_false}
use jni2hook.ByteStream.Many.{Writes-many}
use jni2hook.ByteStream.Whole.{nil_of_length, run_whole-Reads, whole_inv}
use jni2hook.ByteStream.Writes.{
  Writes, Writes-u2, Writes-u4, Writes-bytes, Writes-then, Writes-reserve, Plenty,
}
use jni2hook.ConstantPool.Entry.{IsU2}
use jni2hook.ClassFile.Tree.{AttributeInfo}
use jni2hook.ClassFile.RoundTrip.Layout.{attribute_bytes}
use jni2hook.ClassFile.RoundTrip.Writing.{Writes-attribute}
use jni2hook.CodeAttribute.Codec.{
  ExceptionEntry, CodeAttribute, read_code_head, read_exceptions, read_nested, read_code,
  read_table, code_attribute_parse, write_exception, write_code, code_attribute_write,
}
use jni2hook.CodeAttribute.Layout.{
  exception_bytes, table_bytes, code_head_bytes, code_bytes, IsException, IsCode,
}
use jni2hook.CodeAttribute.Reading.{
  Reads-head, Reads-exceptions, Reads-code, Sound-head, Sound-exceptions, Sound-nested,
}
use jni2hook.CodeAttribute.Lenient.{exceptions_cases, nested_cases, EndsFine-head}

module _ (grants : ℕ → Bool) where
  Writes-exception :
      (e : ExceptionEntry) → Writes grants (write_exception grants e) (exception_bytes e)
  unfolding write_exception
  Writes-exception e = Writes-then grants _ _ (Writes-u2 grants e.start_pc) (
      Writes-then grants _ _ (Writes-u2 grants e.end_pc)
        (Writes-then grants _ _ (Writes-u2 grants e.handler_pc) (Writes-u2 grants e.catch_type)))

  Writes-code : (c : CodeAttribute) → Writes grants (write_code grants c) (code_bytes c)
  unfolding write_code
  Writes-code c =
      Writes-then grants _ _ (Writes-reserve grants ((length c.code + 64) % 2 ^ 32) (omega arith)) (
        Writes-then grants _ _ (Writes-u2 grants c.max_stack) (
          Writes-then grants _ _ (Writes-u2 grants c.max_locals) (
            Writes-then grants _ _ (Writes-u4 grants (length c.code)) (
              Writes-then grants _ _ (Writes-bytes grants c.code) (
                Writes-then grants _ _ (Writes-u2 grants (length c.exceptions)) (
                  Writes-then grants _ _
                    (Writes-many grants exception_bytes _ Writes-exception c.exceptions)
                    (Writes-then grants _ _ (Writes-u2 grants (length c.attributes)) (
                      Writes-many grants attribute_bytes _ (Writes-attribute grants)
                        c.attributes))))))))

  written :
      (c : CodeAttribute) (a : AttributeInfo)
      → Plenty grants
      → length (code_bytes c) < 2 ^ 32
      → code_attribute_write grants c a ≡ ok (record a { info = code_bytes c })
  unfolding code_attribute_write byte_buffer_ok byte_buffer_init
  written c a plenty small =
      let good = (Writes-code c).succeeds byte_buffer_init plenty refl in
      let same = ((Writes-code c).appends byte_buffer_init (omega arith) good).1 in
      let short : ltb 0xFFFFFFFF (length (code_bytes c)) ≡ false = ground arith in
      rw (good, same, short)

-- With an allocator that grants every request, a Code attribute that the format can hold, of less
-- than 2 ^ 32 bytes, is written into an attribute, whose name stays, and parsing the payload gives
-- it back.
pub code_parse-write :
    (grants : ℕ → Bool) (c : CodeAttribute) (a : AttributeInfo)
    → Plenty grants
    → IsCode c
    → length (code_bytes c) < 2 ^ 32
    → (a' : AttributeInfo) × (code_attribute_write grants c a ≡ ok a')
      × (a'.attribute_name_index ≡ a.attribute_name_index)
      × (code_attribute_parse grants a'.info ≡ ok c)
unfolding code_attribute_parse
code_parse-write grants c a plenty h small = (
  record a { info = code_bytes c },
  written grants c a plenty small,
  refl,
  run_whole-Reads (read_code grants) (Reads-code grants plenty c h),
)

-- What a run of the parser has gone through.
record Run (grants : ℕ → Bool) (bytes : List ℕ) (c : CodeAttribute) : Type 0 where
  head_end : ByteCursor
  exceptions_end : ByteCursor
  end : ByteCursor
  head :
      read_code_head grants (cursor_at bytes 0) ≡ ok ((c.max_stack, c.max_locals, c.code), head_end)
  exceptions : read_exceptions grants head_end ≡ ok (c.exceptions, exceptions_end)
  attributes : read_nested grants exceptions_end ≡ ok (c.attributes, end)
  used : end.ahead ≡ []

module _ (grants : ℕ → Bool) (bytes : List ℕ) where
  Run-of_parts :
      (c : CodeAttribute) (c₁ c₂ c₃ d : ByteCursor) {c' : CodeAttribute}
      → read_code_head grants (cursor_at bytes 0) ≡ ok ((c.max_stack, c.max_locals, c.code), c₁)
      → read_exceptions grants c₁ ≡ ok (c.exceptions, c₂)
      → read_nested grants c₂ ≡ ok (c.attributes, c₃)
      → pure c c₃ ≡ ok (c', d)
      → length d.ahead ≡ 0
      → Run grants bytes c'
  unfolding pure
  Run-of_parts c c₁ c₂ c₃ d h₁ h₂ h₃ last used =
      let (same, stays) = ok_parts last in
      subst (Run grants bytes) same (record {
        head_end = c₁;
        exceptions_end = c₂;
        end = c₃;
        head = h₁;
        exceptions = h₂;
        attributes = h₃;
        used = nil_of_length c₃.ahead (subst (λ x. length x.ahead ≡ 0) (sym stays) used);
      })

  Run-of_parse : (c : CodeAttribute) → code_attribute_parse grants bytes ≡ ok c → Run grants bytes c
  unfolding code_attribute_parse read_code
  Run-of_parse c h =
      let (d, e, used) = whole_inv (read_code grants) bytes c h in
      let ((head, c₁), first, e₁) = bind-inv _ _ (cursor_at bytes 0) e in
      let ((exceptions, c₂), second, e₂) = bind-inv _ _ c₁ e₁ in
      let ((attributes, c₃), third, e₃) = bind-inv _ _ c₂ e₂ in
      Run-of_parts _ c₁ c₂ c₃ d first second third e₃ used

-- Where the input may end: at its end, or before a count that is then taken for 0.
abbrev pub Accepted : CodeAttribute → List ℕ → Type 0
Accepted c bytes =
    (code_bytes c ≡ bytes)
    ⊎ ((c.attributes ≡ []) × (code_bytes c ≡ bytes ++ (0 ∷ 0 ∷ [])))
    ⊎ ((c.exceptions ≡ []) × (c.attributes ≡ []) × (code_bytes c ≡ bytes ++ (0 ∷ 0 ∷ 0 ∷ 0 ∷ [])))

-- The parts of a node against the parts of the input, where all three were read, where the input
-- ended behind the second, and where it ended behind the first.
module _ (head bs bytes rest : List ℕ) (same₁ : head ≡ bs) (split₁ : bytes ≡ bs ++ rest) where
  join_one : (zeros : List ℕ) → rest ≡ [] → head ++ zeros ≡ bytes ++ zeros
  join_one zeros none = simp (same₁, split₁, none, append-nil)

  module _ (mid cs rest' : List ℕ) (same₂ : mid ≡ cs) (split₂ : rest ≡ cs ++ rest') where
    join_two : (zeros : List ℕ) → rest' ≡ [] → head ++ (mid ++ zeros) ≡ bytes ++ zeros
    join_two zeros none = simp (same₁, split₁, same₂, split₂, none, append-nil, append_assoc)

    join_three :
        (tail ds end : List ℕ)
        → tail ≡ ds
        → rest' ≡ ds ++ end
        → end ≡ []
        → head ++ (mid ++ tail) ≡ bytes
    join_three tail ds end same₃ split₃ none =
        simp (same₁, split₁, same₂, split₂, same₃, split₃, none, append-nil)

module _ (grants : ℕ → Bool) (bytes : List ℕ) (c : CodeAttribute) where
  -- A run with both counts there, with no second count, and with neither.
  Accepted-of_Run : All IsByte bytes → Run grants bytes c → Accepted c bytes
  Accepted-of_Run valid r =
      let fine₁ = (EndsFine-head grants).run _ r.head in
      let (bs, took₁, rel₁) = (Sound-head grants).run (cursor_at bytes 0) valid r.head fine₁ in
      let valid₁ = Took-bytes took₁ valid in
      elim (exceptions_cases grants r.head_end r.exceptions) [
        | inl fine₂ ↦
            let (cs, took₂, rel₂) =
              (Sound-exceptions grants).run r.head_end valid₁ r.exceptions fine₂ in
            elim (nested_cases grants r.exceptions_end r.attributes) [
              | inl fine₃ ↦
                  let (ds, took₃, rel₃) =
                    (Sound-nested grants).run r.exceptions_end (Took-bytes took₂ valid₁)
                      r.attributes fine₃ in
                  inl (
                    join_three _ bs bytes _ rel₁.4 took₁.split _ cs _ rel₂.2 took₂.split _ ds _
                      rel₃.2 took₃.split r.used)
              | inr (none, lost, stays) ↦ inr (
                  inl (
                    none,
                    rw none (
                        join_two _ bs bytes _ rel₁.4 took₁.split _ cs _ rel₂.2 took₂.split
                          (0 ∷ 0 ∷ []) (sym stays ∙ r.used)),
                  ))
            ]
        | inr (none, lost, stays) ↦ elim (nested_cases grants r.exceptions_end r.attributes) [
          | inl fine₃ ↦ absurd (
              true_and_false fine₃ ((Sound-nested grants).latch r.exceptions_end lost r.attributes))
          | inr (none', lost', stays') ↦ inr (
              inr (
                none,
                none',
                rw (none, none')
                    (join_one _ bs bytes _ rel₁.4 took₁.split (0 ∷ 0 ∷ 0 ∷ 0 ∷ [])
                      (sym stays ∙ sym stays' ∙ r.used)),
              ))
        ]
      ]

-- Whatever the allocator does, a payload that the parser accepts is the bytes of the node that it
-- returns, or lacks only the attribute count, of a node with no attributes, or lacks only both
-- counts, of a node with neither exceptions nor attributes.
pub code_parse-Accepted :
    (grants : ℕ → Bool) (bytes : List ℕ) (c : CodeAttribute)
    → All IsByte bytes
    → code_attribute_parse grants bytes ≡ ok c
    → Accepted c bytes
code_parse-Accepted grants bytes c valid h =
    Accepted-of_Run grants bytes c valid (Run-of_parse grants bytes c h)

abbrev spent : ℕ → ByteCursor
spent t = record { ahead = []; taken = t; fine = false }

module _ (grants : ℕ → Bool) where
  nested_at_end :
      (b : Bool) (t : ℕ)
      → read_nested grants (record { ahead = []; taken = t; fine = b }) ≡ ok ([], spent t)
  unfolding read_nested read_table byte_cursor_u2 reserve read_many ◌>>=◌ pure
  nested_at_end true t = refl
  nested_at_end false t = refl

  exceptions_at_end : (t : ℕ) → read_exceptions grants (cursor_at [] t) ≡ ok ([], spent t)
  unfolding read_exceptions read_table byte_cursor_u2 reserve read_many ◌>>=◌ pure
  exceptions_at_end t = refl

  run_short :
      (stack locals : ℕ) (code : List ℕ) (exceptions : List ExceptionEntry) (bytes : List ℕ)
      (c₁ : ByteCursor) (b : Bool) (t : ℕ)
      → read_code_head grants (cursor_at bytes 0) ≡ ok ((stack, locals, code), c₁)
      → read_exceptions grants c₁ ≡ ok (exceptions, record { ahead = []; taken = t; fine = b })
      → code_attribute_parse grants bytes
        ≡ ok (record {
          max_stack = stack;
          max_locals = locals;
          code = code;
          exceptions = exceptions;
          attributes = [];
        })
  unfolding code_attribute_parse run_whole read_code
  run_short stack locals code exceptions bytes c₁ b t h₁ h₂ = rw (h₁, h₂, nested_at_end b t)

-- With an allocator that grants every request: a payload that ends behind the exception table, and
-- one that ends behind the code, are both accepted, though the format wants the counts that they
-- lack.
pub code_parse_short :
    (grants : ℕ → Bool) (stack locals : ℕ) (code : List ℕ) (exceptions : List ExceptionEntry)
    → Plenty grants
    → IsU2 stack
    → IsU2 locals
    → length code < 2 ^ 32
    → IsU2 (length exceptions)
    → All IsException exceptions
    → let node = λ (l : List ExceptionEntry).
      let c : CodeAttribute = record {
        max_stack = stack;
        max_locals = locals;
        code = code;
        exceptions = l;
        attributes = [];
      } in
      c in
      (code_attribute_parse grants
          (code_head_bytes stack locals code ++ table_bytes exception_bytes exceptions)
        ≡ ok (node exceptions))
      × (code_attribute_parse grants (code_head_bytes stack locals code) ≡ ok (node []))
code_parse_short grants stack locals code exceptions plenty fits₁ fits₂ sized counted fit =
    let head = Reads-head grants plenty stack locals code fits₁ fits₂ sized in
    let table = Reads-exceptions grants plenty exceptions counted fit in
    let bytes = code_head_bytes stack locals code in
    (
      run_short grants stack locals code exceptions _
          (cursor_at (table_bytes exception_bytes exceptions) _) true _
          (head.run (table_bytes exception_bytes exceptions) 0)
          (at_end (read_exceptions grants) (table_bytes exception_bytes exceptions) table),
      run_short grants stack locals code [] bytes (cursor_at [] _) false _
          (at_end (read_code_head grants) bytes head) (exceptions_at_end grants _),
    )
  where
    at_end :
        {A : Type 0} (p : Reader A) (bytes : List ℕ) {a : A} {t : ℕ}
        → Reads p bytes a
        → p (cursor_at bytes t) ≡ ok (a, cursor_at [] (t + length bytes))
    at_end p bytes {a} {t} h =
        subst (λ xs. p (cursor_at xs t) ≡ ok (a, cursor_at [] (t + length bytes)))
          (append-nil bytes) (h.run [] t)
