-- ===== src/Cpu/Sniffed.antt =====
-- A sniffer that watches no address is the memory that it wraps.
use riscv_trace_debugger.Prelude.{
  ℕ, ◌≡◌, refl, Option, none, some, ◌>>=◌, [], Option-cases, inl, inr,
}
use mathlib.Core.Option
use riscv_trace_debugger.Memory.{Memory}
use riscv_trace_debugger.MemSniffer.{MemSniffer, Access, mem_sniffer, sniff_r, sniff_w}
use riscv_trace_debugger.Trace.{Data, u8, u16, u32, u64, u128, MemWrite, TraceEvent}
use riscv_trace_debugger.Cpu.{
  Cpu, store_data, undo_data, write_store, undo_store, write_xreg, step, step_undo,
}

with_memory :
    {M N : Type 0} (o : Option Cpu) (f : M → N) (m : M)
    → ◌>>=◌ {B = Cpu × N} o (λ cpu. some (cpu, f m))
      ≡ Option.map (λ r. (r.0, f r.1)) (◌>>=◌ {B = Cpu × M} o (λ cpu. some (cpu, m)))
with_memory none f m = refl
with_memory (some cpu) f m = refl

module _ {M C : Type 0} (mem : Memory M) (f : Access → C → C) (c : C) where
  -- The wrapped memory.
  abbrev pub unwatched : M → MemSniffer M C
  unwatched m = record { mem = m; addrs = []; on_access = f; captured = c }

  store_data-unwatched :
      (a : ℕ) (d : Data) (m : M)
      → store_data (mem_sniffer mem) a d (unwatched m)
        ≡ (unwatched (store_data mem a d m).0, (store_data mem a d m).1)
  unfolding store_data sniff_r sniff_w
  store_data-unwatched a (u8 v) m = refl
  store_data-unwatched a (u16 v) m = refl
  store_data-unwatched a (u32 v) m = refl
  store_data-unwatched a (u64 v) m = refl
  store_data-unwatched a (u128 v) m = refl

  undo_data-unwatched :
      (a : ℕ) (d : Data) (m : M)
      → undo_data (mem_sniffer mem) a d (unwatched m) ≡ unwatched (undo_data mem a d m)
  unfolding undo_data sniff_w
  undo_data-unwatched a (u8 v) m = refl
  undo_data-unwatched a (u16 v) m = refl
  undo_data-unwatched a (u32 v) m = refl
  undo_data-unwatched a (u64 v) m = refl
  undo_data-unwatched a (u128 v) m = refl

  write_store-unwatched :
      (m : M) (st : Option MemWrite)
      → write_store (mem_sniffer mem) (unwatched m) st
        ≡ (unwatched (write_store mem m st).0, (write_store mem m st).1)
  unfolding write_store
  write_store-unwatched m none = refl
  write_store-unwatched m (some st) = rw (store_data-unwatched st.phys_addr st.value m)

  undo_store-unwatched :
      (m : M) (st : Option MemWrite)
      → undo_store (mem_sniffer mem) (unwatched m) st ≡ unwatched (undo_store mem m st)
  unfolding undo_store
  undo_store-unwatched m none = refl
  undo_store-unwatched m (some st) = elim (Option-cases st.prev_value) [
    | inl e ↦ rw e
    | inr (d, e) ↦ rw e (undo_data-unwatched st.phys_addr d m)
  ]

  pub step-unwatched :
      (cpu : Cpu) (m : M) (e : TraceEvent)
      → step (mem_sniffer mem) cpu (unwatched m) e
        ≡ Option.map (λ r. (r.0, unwatched r.1, r.2)) (step mem cpu m e)
  unfolding step
  step-unwatched cpu m e = elim (Option-cases (write_xreg (record cpu { pc = e.pc }) e.xwrite)) [
    | inl p ↦ rw p
    | inr (r, p) ↦ rw p (rw (write_store-unwatched m e.store))
  ]

  pub step_undo-unwatched :
      (cpu : Cpu) (m : M) (e : TraceEvent) (prev : Option TraceEvent)
      → step_undo (mem_sniffer mem) cpu (unwatched m) e prev
        ≡ Option.map (λ r. (r.0, unwatched r.1)) (step_undo mem cpu m e prev)
  unfolding step_undo
  step_undo-unwatched cpu m e prev =
      simp undo_store-unwatched (with_memory _ unwatched (undo_store mem m e.store))
