-- ===== src/Gdb/Buffers/Pages.antt =====
-- A debugger that reads an object page by page, as the `qXfer` packets do.
use riscv_trace_debugger.Prelude.{
  ℕ, zero, suc, ◌+◌, ◌-◌, ◌%◌, ◌^◌, ◌≤◌, ◌<◌, ◌≡◌, refl, ap, sym, ◌∙◌, Option, none, some, List, [],
  ◌++◌, ltb, false, if◌then◌else◌, length, take, drop, min, arith, length-take, length-drop,
  take-append, take-take, take-drop, drop-drop, drop-nothing, ◌>>=◌, ◌==◌, Bool-cases, inl, inr,
}
use riscv_trace_debugger.Gdb.Buffers.{Filled, copy_range_to_buf}

-- The copy of a range that starts within the object, with no overflow: it takes as many bytes as the
-- buffer has room for, the request asks for and the object has left, from the offset on, and leaves
-- the rest of the buffer.
pub copy_range_to_buf_within :
    (bytes : List ℕ) (offset len : ℕ) (buf : List ℕ)
    → offset ≤ length bytes
    → offset + len < 2 ^ 64
    → let n = min (length buf) (min len (length bytes - offset)) in
      copy_range_to_buf bytes offset len buf ≡ some (take n (drop offset bytes) ++ drop n buf, n)
unfolding copy_range_to_buf
copy_range_to_buf_within bytes offset len buf low fits =
    rw (inside, ordered) (rw (room, taken) refl)
  where
    inside : ltb (length bytes) offset ≡ false
    inside = ground arith

    end : ℕ
    end = min ((offset + len) % 2 ^ 64) (length bytes)

    ordered : ltb end offset ≡ false
    ordered = ground arith

    room :
        min (length buf) (length (take (end - offset) (drop offset bytes)))
        ≡ min (length buf) (min len (length bytes - offset))
    room = omega (arith, length-take (end - offset) (drop offset bytes), length-drop offset bytes)

    taken :
        take
          (min (length buf) (min len (length bytes - offset)))
          (take (end - offset) (drop offset bytes))
        ≡ take (min (length buf) (min len (length bytes - offset))) (drop offset bytes)
    taken = take-take _ _ (drop offset bytes) (omega arith)

-- The next page from `offset` on, until one is empty: what a debugger has at the end. `reply` is the
-- handler's answer to an offset, in a buffer of its choice.
unfoldable pub read_pages : (ℕ → Option Filled) → ℕ → ℕ → Option (List ℕ)
read_pages reply zero offset = none
read_pages reply (suc fuel) offset = do
  page ← reply offset
  let more = read_pages reply fuel (offset + page.1)
  if page.1 == 0 then some [] else (do rest ← more; some (take page.1 page.0 ++ rest))

module _ (bytes : List ℕ) (len : ℕ) (buf : List ℕ) (asks : 0 < len) (room : 0 < length buf)
    (fits : length bytes + len < 2 ^ 64) where
  abbrev reply : ℕ → Option Filled
  reply offset = copy_range_to_buf bytes offset len buf

  -- the size of the page at an offset
  abbrev n_at : ℕ → ℕ
  n_at offset = min (length buf) (min len (length bytes - offset))

  -- A debugger that reads an object page by page gets all of it: for any length of the requests and
  -- any buffer that are not empty, with more rounds than bytes are left, the pages from an offset on
  -- are the bytes of the object from there on. The end of the last request is below 2 ^ 64.
  pub read_pages-copy_range_to_buf :
      (fuel offset : ℕ)
      → offset ≤ length bytes
      → length bytes - offset < fuel
      → read_pages reply fuel offset ≡ some (drop offset bytes)
  unfolding read_pages
  read_pages-copy_range_to_buf zero offset low h = elim h [ ]
  read_pages-copy_range_to_buf (suc fuel) offset low h =
      rw (copy_range_to_buf_within bytes offset len buf low (omega arith))
        (elim (Bool-cases (n_at offset == 0)) [
          | inl e ↦ rw (◌>>=◌, e) (ap some (sym (drop-nothing offset bytes (ground arith))))
          | inr e ↦
              rw
                (
                  ◌>>=◌,
                  e,
                  read_pages-copy_range_to_buf fuel (offset + n_at offset) (omega arith)
                      (ground arith),
                )
                (ap some (
                  ap (λ t. t ++ drop (offset + n_at offset) bytes)
                    (take-append (take (n_at offset) (drop offset bytes)) (drop (n_at offset) buf)
                      (n_at offset)
                      (omega (
                        arith,
                        length-take (n_at offset) (drop offset bytes),
                        length-drop offset bytes,
                      )))
                  ∙ ap (λ t. take (n_at offset) (drop offset bytes) ++ t)
                      (sym (drop-drop (n_at offset) offset bytes))
                  ∙ take-drop (n_at offset) (drop offset bytes)))
        ])
