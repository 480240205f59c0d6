-- ===== src/Instruction/Reading.antt =====
-- src/visitors/instruction.c, `instruction_list_parse`: reading the bytes of one operand.
use jni2hook.Base.{
  ℕ, ◌+◌, ◌*◌, ◌≤◌, ◌<◌, ◌≡◌, refl, subst, Bool, true, false, ◌||◌, not, List, [], ◌++◌, length,
  All, ltb, leb, ◌==◌, arith,
}
use jni2hook.ByteStream.Cursor.{Reader, ◌>>=◌, pure, read_many}
use jni2hook.ByteStream.Reads.{
  Reads, Reads-bind, Reads-last, Reads-pure, Reads-check, Reads-require, Reads-u1, Reads-u2,
  Reads-allocate, be4,
}
use jni2hook.ByteStream.Placed.{ReadsAt, ReadsAt-of_Reads, ReadsAt-bind, ReadsAt-then, ReadsAt-last}
use jni2hook.ByteStream.Many.{Reads-many, many_bytes}
use jni2hook.ByteStream.Writes.{Plenty}
use jni2hook.Instruction.Node.{SwitchPair, Operand, kind, biased, span, padding, max_code_length}
use jni2hook.Instruction.Decode.{
  target_of, read_target, read_pair, may_be_wide, read_table_switch, read_lookup_switch,
  read_operand,
}
use jni2hook.Instruction.Encode.{delta_from}
use jni2hook.Instruction.Layout.{
  zeros, pair_bytes, target_bytes, operand_bytes, IsI4, IsPair, IsOperand,
}
use jni2hook.Instruction.Numbers.{
  Reads-i4, Reads-i2, Reads-i1_or_i2, Reads-u1_or_u2, target_of-delta_from, Reads-target,
  branch_delta, Reads-pair, ReadsAt-padding, ReadsAt-remaining, length-many_bytes,
}

module _ (grants : ℕ → Bool) (plenty : Plenty grants) where
  ReadsAt-table_switch :
      (offset t default low high : ℕ) (targets : List ℕ) (rest : List ℕ)
      → offset < 4294967296
      → t ≡ offset + 1
      → IsI4 default
      → IsI4 low
      → IsI4 high
      → biased low ≤ biased high
      → length targets ≡ span low high
      → All IsI4 targets
      → ReadsAt
          (read_table_switch grants offset)
          t
          (zeros (padding offset)
            ++ (target_bytes offset default
                ++ (be4 low ++ (be4 high ++ many_bytes (target_bytes offset) targets))))
          rest
          (Operand.table_switch default low high targets)
  unfolding read_table_switch
  ReadsAt-table_switch offset t default low high targets rest h at d l u ordered counted fit =
      ReadsAt-bind _ _
        (ReadsAt-padding 3 (padding offset) t _ (rw at (omega arith)) (omega arith) (omega arith))
        (ReadsAt-bind _ _ (ReadsAt-of_Reads (Reads-target offset default h d) _ _) (
          ReadsAt-bind _ _ (ReadsAt-of_Reads (Reads-i4 low l) _ _) (
            ReadsAt-bind _ _ (ReadsAt-of_Reads (Reads-i4 high u) _ _) (
              ReadsAt-then _ _ (ReadsAt-of_Reads (Reads-check _) _ _) (
                ReadsAt-then _ _
                  (ReadsAt-of_Reads
                    (Reads-require (leb (biased low) (biased high)) _ (ground arith)) _ _)
                  (ReadsAt-then _ _
                    (ReadsAt-remaining (span low high * 4) _ _ (
                      rw (← counted)
                        (length-many_bytes (target_bytes offset) 4 (λ a. refl) targets rest)))
                    (ReadsAt-then _ _
                      (ReadsAt-of_Reads (Reads-allocate grants (span low high * 4) plenty) _ _)
                      (ReadsAt-last _ _
                        (ReadsAt-of_Reads
                          (subst
                            (λ n.
                              Reads (read_many n (read_target offset))
                                (many_bytes (target_bytes offset) targets) targets)
                            counted
                            (Reads-many (target_bytes offset) IsI4 (read_target offset)
                              (λ a k. Reads-target offset a h k) targets fit))
                          _ _)
                        (ReadsAt-of_Reads (Reads-pure _) _ _)))))))))

  ReadsAt-lookup_switch :
      (offset t default : ℕ) (pairs : List SwitchPair) (rest : List ℕ)
      → offset < 4294967296
      → t ≡ offset + 1
      → IsI4 default
      → length pairs ≤ max_code_length
      → All IsPair pairs
      → ReadsAt
          (read_lookup_switch grants offset)
          t
          (zeros (padding offset)
            ++ (target_bytes offset default
                ++ (be4 (length pairs) ++ many_bytes (pair_bytes offset) pairs)))
          rest
          (Operand.lookup_switch default pairs)
  unfolding read_lookup_switch
  ReadsAt-lookup_switch offset t default pairs rest h at d counted fit =
      ReadsAt-bind _ _
        (ReadsAt-padding 3 (padding offset) t _ (rw at (omega arith)) (omega arith) (omega arith))
        (ReadsAt-bind _ _ (ReadsAt-of_Reads (Reads-target offset default h d) _ _) (
          ReadsAt-bind _ _ (ReadsAt-of_Reads (Reads-i4 (length pairs) (omega arith)) _ _) (
            ReadsAt-then _ _ (ReadsAt-of_Reads (Reads-check _) _ _) (
              ReadsAt-then _ _
                (ReadsAt-of_Reads (Reads-require (ltb (length pairs) 2147483648) _ (ground arith)) _
                  _)
                (ReadsAt-then _ _
                  (ReadsAt-remaining (length pairs * 8) _ _
                    (length-many_bytes (pair_bytes offset) 8 (λ a. refl) pairs rest))
                  (ReadsAt-then _ _
                    (ReadsAt-of_Reads
                      (Reads-require (length pairs == 0 || grants (length pairs * 8)) _
                        (ground (arith, plenty (length pairs * 8))))
                      _ _)
                    (ReadsAt-last _ _
                      (ReadsAt-of_Reads
                        (Reads-many (pair_bytes offset) IsPair (read_pair offset)
                          (Reads-pair offset h) pairs fit)
                        _ _)
                      (ReadsAt-of_Reads (Reads-pure _) _ _))))))))

  -- A form of one or two numbers.
  one :
      {p : Reader ℕ} {bs : List ℕ} (make : ℕ → Operand) (v t : ℕ) (rest : List ℕ)
      → Reads p bs v
      → ReadsAt (p >>= λ a. pure (make a)) t bs rest (make v)
  one make v t rest h = ReadsAt-of_Reads (Reads-last _ _ h (Reads-pure (make v))) t rest

  pub ReadsAt-operand :
      (offset t opcode : ℕ) (wide : Bool) (operand : Operand) (rest : List ℕ)
      → offset < 4294967296
      → (wide ≡ false → t ≡ offset + 1)
      → (not wide || may_be_wide (kind operand)) ≡ true
      → IsOperand offset opcode wide operand
      → ReadsAt
          (read_operand grants offset opcode wide (kind operand))
          t
          (operand_bytes offset opcode wide operand)
          rest
          operand
  unfolding read_operand kind
  ReadsAt-operand offset t opcode wide Operand.no_operand rest h at w fit =
      ReadsAt-of_Reads (Reads-pure _) t rest
  ReadsAt-operand offset t opcode wide (Operand.immediate value) rest h at w fit =
      one Operand.immediate value t rest (Reads-i1_or_i2 (opcode == 17) value fit)
  ReadsAt-operand offset t opcode wide (Operand.local index) rest h at w fit =
      one Operand.local index t rest (Reads-u1_or_u2 wide index fit)
  ReadsAt-operand offset t opcode wide (Operand.iinc index delta) rest h at w (fit, fit') =
      ReadsAt-of_Reads
        (Reads-bind _ _ (Reads-u1_or_u2 wide index fit)
          (Reads-last _ _ (Reads-i1_or_i2 wide delta fit') (Reads-pure _)))
        t rest
  ReadsAt-operand offset t opcode wide (Operand.constant index) rest h at w fit =
      one Operand.constant index t rest (Reads-u1_or_u2 (not (opcode == 18)) index fit)
  ReadsAt-operand offset t opcode wide (Operand.cp_index index) rest h at w fit =
      one Operand.cp_index index t rest (Reads-u2 index fit)
  ReadsAt-operand offset t opcode wide (Operand.invoke_interface index count last) rest h at w
        (a, b, c) =
      ReadsAt-of_Reads
        (Reads-bind _ _ (Reads-u2 index a)
          (Reads-bind _ _ (Reads-u1 count b) (Reads-last _ _ (Reads-u1 last c) (Reads-pure _))))
        t rest
  ReadsAt-operand offset t opcode wide (Operand.invoke_dynamic index last) rest h at w (a, b) =
      ReadsAt-of_Reads
        (Reads-bind _ _ (Reads-u2 index a) (Reads-last _ _ (Reads-u2 last b) (Reads-pure _))) t rest
  ReadsAt-operand offset t opcode wide (Operand.multianewarray index dimensions) rest h at w
        (a, b) =
      ReadsAt-of_Reads
        (Reads-bind _ _ (Reads-u2 index a) (Reads-last _ _ (Reads-u1 dimensions b) (Reads-pure _)))
        t rest
  ReadsAt-operand offset t opcode wide (Operand.branch target) rest h at w (a, b) =
      ReadsAt-of_Reads
        (Reads-last _ _ (Reads-i2 (delta_from offset target) (branch_delta offset target h a b)) (
          subst
            (λ v.
              Reads (pure (Operand.branch (target_of offset (delta_from offset target)))) []
                (Operand.branch v))
            (target_of-delta_from offset target h a) (Reads-pure _)))
        t rest
  ReadsAt-operand offset t opcode wide (Operand.branch_wide target) rest h at w (a, b) =
      one Operand.branch_wide target t rest (Reads-target offset target h a)
  ReadsAt-operand offset t opcode wide (Operand.table_switch default low high targets) rest h at w
        (a, b, c, d, e, f, g) =
      ReadsAt-table_switch offset t default low high targets rest h (at (ground arith)) a b c d e g
  ReadsAt-operand offset t opcode wide (Operand.lookup_switch default pairs) rest h at w (a, b, c) =
      ReadsAt-lookup_switch offset t default pairs rest h (at (ground arith)) a b c
