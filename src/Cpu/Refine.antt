-- ===== src/Cpu/Refine.antt =====
-- `step` does to the registers and to the memory what `apply` says, and fills the event in.
use riscv_trace_debugger.Prelude.{
  ℕ, ◌≡◌, refl, ap, ◌∙◌, Option, none, some, arith, length, get_elem?-eq-some,
}
use riscv_trace_debugger.Memory.{Memory, Lawful, IsBytes, size, read, write, put}
use riscv_trace_debugger.Trace.{Data, u8, u16, u32, u64, u128, XRegWrite, MemWrite, TraceEvent}
use riscv_trace_debugger.Cpu.{Cpu, write_xreg, store_data, write_store, step}
use riscv_trace_debugger.Cpu.Replay.{
  State, apply, put_write, put_store, fill, fill_write, fill_store, IsValid, ValidWrite, ValidStore,
  IsSound, width, payload, with_payload,
}

write_xreg_lem :
    (cpu : Cpu) (w : Option XRegWrite)
    → length cpu.xregs ≡ 32
    → ValidWrite w
    → write_xreg cpu w ≡ some (record cpu { xregs = put_write w cpu.xregs }, fill_write cpu.xregs w)
unfolding write_xreg
write_xreg_lem cpu none len v = refl
write_xreg_lem cpu (some w) len v =
    let (old, found) = get_elem?-eq-some cpu.xregs w.index (omega arith) in rw found

module _ {M : Type 0} {mem : Memory M} (law : Lawful mem) where
  store_data-read-write :
      (a : ℕ) (d : Data) (m : M)
      → store_data mem a d m ≡ (
        write mem (width d) a (payload d) (read mem (width d) a m).1,
        with_payload d (read mem (width d) a m).0,
      )
  unfolding store_data
  store_data-read-write a (u8 v) m = refl
  store_data-read-write a (u16 v) m = refl
  store_data-read-write a (u32 v) m = refl
  store_data-read-write a (u64 v) m = refl
  store_data-read-write a (u128 v) m = refl

  write_store-bytes :
      (m : M) (st : Option MemWrite)
      → ValidStore st
      → law.bytes (write_store mem m st).0 ≡ put_store st (law.bytes m)
  unfolding write_store
  write_store-bytes m none v = refl
  write_store-bytes m (some st) v = rw (store_data-read-write st.phys_addr st.value m) (
      law.write_bytes (width st.value) st.phys_addr (payload st.value) _ v.0 v.1
      ∙ ap (λ f. put (size (width st.value)) (payload st.value) f st.phys_addr)
          (law.read_bytes (width st.value) st.phys_addr m))

  write_store-fill :
      (m : M) (st : Option MemWrite)
      → IsBytes (law.bytes m)
      → ValidStore st
      → (write_store mem m st).1 ≡ fill_store (law.bytes m) st
  unfolding write_store
  write_store-fill m none bytes v = refl
  write_store-fill m (some st) bytes v = rw (store_data-read-write st.phys_addr st.value m) (
      ap (λ t. some (record st { prev_value = some (with_payload st.value t) }))
        (law.read_value (width st.value) st.phys_addr m bytes v.0))

  abbrev pub view : Cpu → M → State
  view cpu m = record { cpu = cpu; bytes = law.bytes m }

  -- What a step did.
  pub record Stepped (cpu : Cpu) (m : M) (e : TraceEvent) : Type 0 where
    pub cpu' : Cpu
    pub m' : M
    pub returns : step mem cpu m e ≡ some (cpu', m', fill (view cpu m) e)
    pub meaning : view cpu' m' ≡ apply e (view cpu m)

  pub step_lem :
      (cpu : Cpu) (m : M) (e : TraceEvent) → IsSound (view cpu m) → IsValid e → Stepped cpu m e
  unfolding step fill apply
  step_lem cpu m e sound valid = record {
    cpu' = cpu';
    m' = (write_store mem m e.store).0;
    returns = rw (write_xreg_lem (record cpu { pc = e.pc }) e.xwrite sound.registers valid.xwrite) (
        ap (λ st. some (cpu', (write_store mem m e.store).0, filled st))
          (write_store-fill m e.store sound.bytes valid.store));
    meaning = ap (λ f. record { cpu = cpu'; bytes = f }) (write_store-bytes m e.store valid.store);
  }
    where
      cpu' : Cpu
      cpu' = record cpu { pc = e.pc; xregs = put_write e.xwrite cpu.xregs }

      filled : Option MemWrite → TraceEvent
      filled st = record e { xwrite = fill_write cpu.xregs e.xwrite; store = st }
