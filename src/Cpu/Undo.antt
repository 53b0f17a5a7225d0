-- ===== src/Cpu/Undo.antt =====
-- `step_undo` on an event that a step filled in takes the registers and the memory back.
use riscv_trace_debugger.Prelude.{
  ℕ, ◌<◌, ◌≡◌, refl, ap, ◌∙◌, Option, none, some, List, arith, length, get_elem?, set,
  get_elem?-eq-some, get_elem?-set_self, set_undo,
}
use riscv_trace_debugger.Memory.{
  Memory, Lawful, Bytes, IsBytes, size, write, put, put_undo, le_value, le_value-lt,
}
use riscv_trace_debugger.Trace.{Data, u8, u16, u32, u64, u128, XRegWrite, MemWrite, TraceEvent}
use riscv_trace_debugger.Cpu.{Cpu, put_xreg, undo_xreg, undo_data, undo_store, step_undo}
use riscv_trace_debugger.Cpu.Replay.{
  State, apply, put_write, put_store, fill, fill_write, fill_store, IsValid, ValidWrite, ValidStore,
  IsSound, width, payload, with_payload,
}
use riscv_trace_debugger.Cpu.Refine.{view}

put_xreg-set :
    (cpu : Cpu) (xs : List ℕ) (i v old : ℕ)
    → i < length xs
    → get_elem? xs i ≡ some old
    → cpu.xregs ≡ set xs i v
    → put_xreg cpu i old ≡ some (record cpu { xregs = xs })
unfolding put_xreg
put_xreg-set cpu xs i v old h found e =
    rw (ap (λ l. get_elem? l i) e ∙ get_elem?-set_self xs i v h)
      (ap (λ l. some (record cpu { xregs = l })) (ap (λ l. set l i old) e ∙ set_undo xs i v found))

undo_xreg_lem :
    (cpu : Cpu) (xs : List ℕ) (w : Option XRegWrite)
    → length xs ≡ 32
    → ValidWrite w
    → cpu.xregs ≡ put_write w xs
    → undo_xreg cpu (fill_write xs w) ≡ some (record cpu { xregs = xs })
unfolding undo_xreg
undo_xreg_lem cpu xs none len v e = ap (λ l. some (record cpu { xregs = l })) e
undo_xreg_lem cpu xs (some w) len v e =
    let (old, found) = get_elem?-eq-some xs w.index (omega arith) in
    rw found (put_xreg-set cpu xs w.index w.value old (omega arith) found e)

-- Where a step back leaves `pc`: at the event before, and unmoved if there is none.
abbrev pub pc_before : Option TraceEvent → ℕ → ℕ
pc_before none pc = pc
pc_before (some prev) pc = prev.pc

module _ {M : Type 0} {mem : Memory M} (law : Lawful mem) where
  undo_data-write :
      (a : ℕ) (d : Data) (v : ℕ) (m : M)
      → undo_data mem a (with_payload d v) m ≡ write mem (width d) a v m
  unfolding undo_data
  undo_data-write a (u8 _) v m = refl
  undo_data-write a (u16 _) v m = refl
  undo_data-write a (u32 _) v m = refl
  undo_data-write a (u64 _) v m = refl
  undo_data-write a (u128 _) v m = refl

  undo_store_lem :
      (m : M) (f : Bytes) (st : Option MemWrite)
      → IsBytes f
      → ValidStore st
      → law.bytes m ≡ put_store st f
      → law.bytes (undo_store mem m (fill_store f st)) ≡ f
  unfolding undo_store
  undo_store_lem m f none bytes v e = e
  undo_store_lem m f (some st) bytes v e = rw (undo_data-write st.phys_addr st.value old m) (
      law.write_bytes (width st.value) st.phys_addr old m v.0 (le_value-lt n f st.phys_addr bytes)
      ∙ ap (λ g. put n old g st.phys_addr) e
      ∙ put_undo n (payload st.value) f st.phys_addr bytes)
    where
      n : ℕ
      n = size (width st.value)

      old : ℕ
      old = le_value n f st.phys_addr

  pub record Undone (s : State) (e : TraceEvent) (cpu : Cpu) (m : M) (prev : Option TraceEvent)
      : Type 0 where
    pub m' : M
    pub returns :
        step_undo mem cpu m (fill s e) prev ≡ some (record s.cpu { pc = pc_before prev cpu.pc }, m')
    pub restored : law.bytes m' ≡ s.bytes

  pub step_undo_lem :
      (s : State) (e : TraceEvent) (cpu : Cpu) (m : M) (prev : Option TraceEvent)
      → IsSound s
      → IsValid e
      → view law cpu m ≡ apply e s
      → Undone s e cpu m prev
  unfolding step_undo fill apply
  step_undo_lem s e cpu m prev sound valid after = record {
    m' = undo_store mem m (fill_store s.bytes e.store);
    returns = returns prev;
    restored =
        undo_store_lem m s.bytes e.store sound.bytes valid.store
          (ap (λ (t : State). t.bytes) after);
  }
    where
      xregs : cpu.xregs ≡ put_write e.xwrite s.cpu.xregs
      xregs = ap (λ (t : State). t.cpu.xregs) after

      at_pc :
          (pc : ℕ)
          → undo_xreg (record cpu { pc = pc }) (fill_write s.cpu.xregs e.xwrite)
            ≡ some (record s.cpu { pc = pc })
      at_pc pc =
          undo_xreg_lem (record cpu { pc = pc }) s.cpu.xregs e.xwrite sound.registers valid.xwrite
            xregs
          ∙ ap (λ (t : State). some (record t.cpu { pc = pc; xregs = s.cpu.xregs })) after

      returns :
          (prev : Option TraceEvent)
          → step_undo mem cpu m (fill s e) prev
            ≡ some (
              record s.cpu { pc = pc_before prev cpu.pc },
              undo_store mem m (fill_store s.bytes e.store),
            )
      returns none = rw (at_pc cpu.pc)
      returns (some p) = rw (at_pc p.pc)
