-- ===== src/CodeEditor/Store.antt =====
-- src/visitors/code_editor.c, `code_editor_store`.
use jni2hook.Base.{ℕ, Bool, List, [], ◌∷◌, Option, none, some, Result, ok, bind, if◌then◌else◌}
use jni2hook.ClassFile.Tree.{AttributeInfo}
use jni2hook.NodeList.Growth.{NodeList, empty_list, attribute_list_append, attribute_info_set_info}
use jni2hook.Instruction.Encode.{instruction_list_encode}
use jni2hook.CodeAttribute.Codec.{code_attribute_write}
use jni2hook.StackMapTable.Codec.{stack_map_table_write}
use jni2hook.CodeEditor.Editor.{CodeEditor}
use jni2hook.CodeEditor.Tables.{write_line_numbers, write_locals, take_buffer}
use jni2hook.CodeEditor.Load.{copy_exceptions}

abbrev pub named : ℕ → AttributeInfo
named name_index = record { attribute_name_index = name_index; info = [] }

module _ (grants : ℕ → Bool) where
  -- `attribute_list_append`, and then what is stored through the pointer that it gives.
  unfoldable pub append_written :
      Result AttributeInfo → NodeList AttributeInfo → Result (NodeList AttributeInfo)
  append_written written list =
      bind (attribute_list_append grants (named 0) list)
        (λ room. bind written (λ a. attribute_list_append grants a list))

  -- `if (has) { ... }` around the append of a table.
  abbrev pub append_if :
      Bool → Result AttributeInfo → NodeList AttributeInfo → Result (NodeList AttributeInfo)
  append_if has written list = if has then append_written written list else ok list

  -- The loop over the opaque attributes.
  unfoldable pub store_others :
      List AttributeInfo → NodeList AttributeInfo → Result (NodeList AttributeInfo)
  store_others [] list = ok list
  store_others (a ∷ others) list =
      bind
        (append_written (attribute_info_set_info grants (named a.attribute_name_index) a.info) list)
        (store_others others)

  -- The attributes in the order in which they go back in.
  unfoldable pub store_attributes : CodeEditor → Result (NodeList AttributeInfo)
  store_attributes e =
      bind
        (append_if e.has_line_numbers
          (take_buffer grants (write_line_numbers grants e.line_numbers) e.line_number_name_index)
          empty_list)
        (λ lines.
          bind
            (append_if e.has_locals
              (take_buffer grants (write_locals grants e.locals) e.local_variable_name_index) lines)
            (λ locals.
              bind
                (append_if e.has_local_types
                  (take_buffer grants (write_locals grants e.local_types) e.local_type_name_index)
                  locals)
                (λ types.
                  bind
                    (append_if e.has_stack_map
                      (stack_map_table_write grants e.stack_map (named e.stack_map_name_index))
                      types)
                    (store_others e.other_attributes.items))))

  -- Behind the encoding of the instructions.
  unfoldable pub rebuild : List ℕ → CodeEditor → AttributeInfo → Result AttributeInfo
  rebuild bytecode e code = bind (copy_exceptions grants e.exceptions.items) (λ exceptions.
      bind (store_attributes e) (λ attributes.
        code_attribute_write grants
          (record {
            max_stack = e.max_stack;
            max_locals = e.max_locals;
            code = bytecode;
            exceptions = exceptions.items;
            attributes = attributes.items;
          })
          code))

  abbrev pub rebuilt :
      CodeEditor → AttributeInfo → Option (Result (List ℕ)) → Option (Result AttributeInfo)
  rebuilt e code none = none
  rebuilt e code (some encoded) = some (bind encoded (λ bytecode. rebuild bytecode e code))

  -- `rounds` bounds the padding loop of the encoder; `none` means that they ran out.
  unfoldable pub code_editor_store : ℕ → CodeEditor → AttributeInfo → Option (Result AttributeInfo)
  code_editor_store rounds e code =
      rebuilt e code (instruction_list_encode grants rounds e.instructions)
