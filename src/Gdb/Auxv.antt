-- ===== src/Gdb/Auxv.antt =====
-- gdb/auxv.rs: the auxiliary vector. `none` is a panic. `u` is the conversion of a `Usize` of `size`
-- bytes, which gdbstub has.
use riscv_trace_debugger.Prelude.{
  ℕ, ◌<◌, ◌^◌, ◌≡◌, refl, ap, ◌∙◌, Option, none, some, List, [], ◌++◌, leb, take, length, replicate,
  arith, if◌then◌else◌, ◌>>=◌, append_assoc, append-nil, drop-nothing,
}
use riscv_trace_debugger.LeBytes.{LeBytes, IsLeBytes, encode, length-encode}
use riscv_trace_debugger.Machine.{Machine}
use riscv_trace_debugger.Gdb.Buffers.{Filled, copy_range_to_buf}

abbrev pub auxv_at_null : ℕ
auxv_at_null = 0

abbrev pub auxv_at_entry : ℕ
auxv_at_entry = 9

-- A conversion that does not fit leaves the buffer.
abbrev buffer_after : List ℕ → Option (List ℕ × ℕ) → List ℕ
buffer_after bytes none = bytes
buffer_after bytes (some (bytes', n)) = bytes'

module _ (size : ℕ) (u : LeBytes) where
  -- Whether it fits is not looked at.
  unfoldable pub converted : ℕ → List ℕ → List ℕ
  converted v bytes = buffer_after bytes (u.to_le_bytes v bytes)

  -- `&bytes[0..sz]`
  unfoldable pub front : List ℕ → Option (List ℕ)
  front bytes = if leb size (length bytes) then some (take size bytes) else none

  unfoldable pub append_auxv : List ℕ → ℕ → ℕ → Option (List ℕ)
  unfolding converted front
  append_auxv auxv typ val =
      if leb 8 size
      then (do
        let bytes = converted typ (replicate 8 0)
        first ← front bytes
        let bytes' = converted val bytes
        second ← front bytes'
        some ((auxv ++ first) ++ second))
      else none

  unfoldable pub get_auxv : Machine → ℕ → ℕ → List ℕ → Option Filled
  unfolding append_auxv copy_range_to_buf
  get_auxv m offset len buf = do
    auxv ← append_auxv [] auxv_at_entry m.entry
    auxv' ← append_auxv auxv auxv_at_null 0
    copy_range_to_buf auxv' offset len buf

module _ (u : LeBytes) (law : IsLeBytes 8 u) where
  converted_lem :
      (v : ℕ) (bytes : List ℕ) → v < 256 ^ 8 → length bytes ≡ 8 → converted 8 u v bytes ≡ encode 8 v
  unfolding converted
  converted_lem v bytes fits h =
      ap (buffer_after bytes) (law.to_le_bytes_fits v bytes fits (omega arith))
      ∙ ap (λ t. encode 8 v ++ t) (drop-nothing 8 bytes (omega arith))
      ∙ append-nil (encode 8 v)

  front-encode : (v : ℕ) → front 8 u (encode 8 v) ≡ some (encode 8 v)
  unfolding front encode
  front-encode v = refl

  append_auxv_lem :
      (auxv : List ℕ) (typ val : ℕ)
      → typ < 256 ^ 8
      → val < 256 ^ 8
      → append_auxv 8 u auxv typ val ≡ some ((auxv ++ encode 8 typ) ++ encode 8 val)
  unfolding append_auxv
  append_auxv_lem auxv typ val t v =
      rw
        (
          converted_lem typ (replicate 8 0) t refl,
          front-encode typ,
          converted_lem val (encode 8 typ) v (length-encode 8 typ),
          front-encode val,
        )
        refl

  -- With words of eight bytes, converted in little-endian order as gdbstub documents, and an entry
  -- point that fits a word, the auxiliary vector is the pair of AT_ENTRY and the entry point and
  -- then the pair of AT_NULL and 0, and a request is answered by the range of it that is asked for.
  pub get_auxv_lem :
      (m : Machine) (offset len : ℕ) (buf : List ℕ)
      → m.entry < 256 ^ 8
      → get_auxv 8 u m offset len buf
        ≡ copy_range_to_buf
            (encode 8 auxv_at_entry ++ (encode 8 m.entry ++ (encode 8 auxv_at_null ++ encode 8 0)))
            offset
            len
            buf
  unfolding get_auxv
  get_auxv_lem m offset len buf h =
      rw
        (
          append_auxv_lem [] auxv_at_entry m.entry (omega arith) h,
          append_auxv_lem (encode 8 auxv_at_entry ++ encode 8 m.entry) auxv_at_null 0 (omega arith)
              (omega arith),
        )
        (ap (λ t. copy_range_to_buf t offset len buf)
          (append_assoc (encode 8 auxv_at_entry ++ encode 8 m.entry) (encode 8 auxv_at_null)
              (encode 8 0)
            ∙ append_assoc (encode 8 auxv_at_entry) (encode 8 m.entry)
                (encode 8 auxv_at_null ++ encode 8 0)))
