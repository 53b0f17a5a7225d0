-- ===== src/MemSniffer.antt =====
-- mem_sniffer.rs: a memory that tells a callback of the accesses at watched addresses.
use riscv_trace_debugger.Prelude.{
  ℕ, ◌%◌, ◌^◌, ◌==◌, ◌||◌, if◌then◌else◌, Bool, false, List, [], ◌∷◌,
}
use riscv_trace_debugger.Memory.{Memory}

pub data AccessKind : Type 0 where
  read write : AccessKind

pub record Access : Type 0 where
  pub kind : AccessKind
  pub addr : ℕ
  pub val : ℕ
  pub len : ℕ

-- The closure `on_access` has the captured state `C`, which is kept in `captured`.
pub record MemSniffer (M C : Type 0) : Type 0 where
  pub mem : M
  pub addrs : List ℕ
  pub on_access : Access → C → C
  pub captured : C

-- `contains` of a slice of addresses.
unfoldable pub contains : List ℕ → ℕ → Bool
contains [] a = false
contains (x ∷ xs) a = x == a || contains xs a

module _ {M C : Type 0} where
  unfoldable pub new : M → List ℕ → (Access → C → C) → C → MemSniffer M C
  new mem addrs on_access captured = record {
    mem = mem;
    addrs = addrs;
    on_access = on_access;
    captured = captured;
  }

  -- The call of the callback, which both macros make in the same way.
  notify : Access → MemSniffer M C → MemSniffer M C
  unfolding contains
  notify access s =
      if contains s.addrs access.addr
      then record s { captured = s.on_access access s.captured }
      else s

  -- `impl_memsniff_r!`, over the read `fn` of the wrapped memory and the length of its result.
  unfoldable pub sniff_r : (ℕ → M → ℕ × M) → ℕ → ℕ → MemSniffer M C → ℕ × MemSniffer M C
  unfolding notify
  sniff_r fn len addr s =
      let (ret, m) = fn addr s.mem in
      (
        ret,
        notify (record { kind = AccessKind.read; addr = addr; val = ret % 2 ^ 64; len = len })
            (record s { mem = m }),
      )

  -- `impl_memsniff_w!`
  unfoldable pub sniff_w : (ℕ → ℕ → M → M) → ℕ → ℕ → ℕ → MemSniffer M C → MemSniffer M C
  unfolding notify
  sniff_w fn len addr val s =
      notify (record { kind = AccessKind.write; addr = addr; val = val % 2 ^ 64; len = len })
        (record s { mem = fn addr val s.mem })

  abbrev pub mem_sniffer : Memory M → Memory (MemSniffer M C)
  mem_sniffer mem = record {
    r8 = sniff_r mem.r8 1;
    r16 = sniff_r mem.r16 2;
    r32 = sniff_r mem.r32 4;
    r64 = sniff_r mem.r64 8;
    r128 = sniff_r mem.r128 16;
    w8 = sniff_w mem.w8 1;
    w16 = sniff_w mem.w16 2;
    w32 = sniff_w mem.w32 4;
    w64 = sniff_w mem.w64 8;
    w128 = sniff_w mem.w128 16;
  }
