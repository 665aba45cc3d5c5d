-- ===== src/SerialPort/Copy.antt =====
-- Copying a serial port, and reading its name.
use libusbp.Base.{ℕ, ◌+◌, ◌≡◌, refl, sym, subst, ◌∙◌, Option, none, some, arith}
use libusbp.Heap.{Heap, no_blocks, block, block?}
use libusbp.Heap.Moves.{Moves, Short, Short-before, Gave, malloc-Gave}
use libusbp.Heap.Returns
use libusbp.Heap.Returns.{Returns}
use libusbp.Error.{Error, Text, error_no_memory}
use libusbp.Device.Copy.{SameText}
use libusbp.Device.Steps.{GetsText, string_copy-GetsText}
use libusbp.Steps.{Failed, Gets, Ends, pure-Ends, same-Ends, proceed-Returns}
use libusbp.SerialPort.{
  SerialPort, owned, owned?, Created, copy_text, finish_copy, copy_port_name, copy_at,
  serial_port_copy, serial_port_get_name,
}
use libusbp.SerialPort.Ends.{then_free-Ends}

-- A port that was created has both its texts.
abbrev pub complete_port : (at : ℕ) → (syspath port_name : Text) → SerialPort
complete_port at syspath port_name = record {
  at = at;
  syspath = some syspath;
  port_name = some port_name;
}

-- Both texts with the same characters, in blocks of the copy; or an error, where a request for
-- memory fails.
abbrev pub CopiesPort : (syspath port_name : Text) → Heap → Created → Heap → Type 0
CopiesPort syspath port_name h =
    Gets (λ _. Short h)
      (λ port. SameText port.syspath (some syspath) × SameText port.port_name (some port_name))
      owned h

finish_copy-Ends :
    (port : Option SerialPort) (result : Created)
    → Ends (owned? port) (finish_copy port result) result
unfolding finish_copy
finish_copy-Ends port result =
    same-Ends _ _ _ _ (λ a. omega arith) (then_free-Ends port _ _ _ (pure-Ends result))

module _ (source : ℕ) (syspath port_name : Text) (h : Heap) where
  lose-Copies :
      (port : Option SerialPort) (e : Error) (g k : Heap)
      → Short h
      → Moves h no_blocks (owned? port) g
      → Failed e g k
      → Returns (CopiesPort syspath port_name h) (finish_copy port (some e, none) k)
  lose-Copies port e g k lack m (v, n) =
      Returns.mono (finish_copy-Ends port (some e, none) k (λ a. omega (arith, m.live a, n.live a)))
        λ x j (q, f).
          subst (λ y. CopiesPort syspath port_name h y j) (sym q)
            (
              refl,
              (
                lack,
                (
                  v,
                  record {
                    live = λ a. omega (arith, m.live a, n.live a, f.live a);
                    same = f.same ∙ n.same ∙ m.same;
                  },
                ),
              ),
            )

  port_name-Copies :
      (at : ℕ) (s : Text) (g : Heap)
      → s.chars ≡ syspath.chars
      → Moves h no_blocks (λ a. block s.at a + block at a) g
      → Returns (CopiesPort syspath port_name h) (
          copy_port_name
            (complete_port source syspath port_name)
            (record { at = at; syspath = some s; port_name = none })
            g)
  unfolding copy_port_name copy_text
  port_name-Copies at s g q m = Returns.bind (string_copy-GetsText port_name g) λ x k r.
      proceed-Returns _ _ x k r
        (λ e lack f.
          lose-Copies (some (record { at = at; syspath = some s; port_name = none })) e g k
            (Short-before m lack) (record { live = λ a. omega (arith, m.live a); same = m.same }) f)
        λ t u n. Returns.mono (finish_copy-Ends none _ k (λ a. omega arith)) λ y j (p, f).
          subst (λ y. CopiesPort syspath port_name h y j) (sym p)
            (
              (q, u),
              record {
                live = λ a. omega (arith, m.live a, n.live a, f.live a);
                same = f.same ∙ n.same ∙ m.same;
              },
            )

  copy_at-Copies :
      (p : Option ℕ) (g : Heap)
      → Gave h p
      → Moves h no_blocks (block? p) g
      → Returns
          (CopiesPort syspath port_name h)
          (copy_at (complete_port source syspath port_name) p g)
  unfolding copy_at copy_text
  copy_at-Copies none g lack m =
      lose-Copies none error_no_memory g g lack
        (record { live = λ a. omega (arith, m.live a); same = m.same })
        (record { counted = refl; has_message = refl }, record { live = λ a. refl; same = refl })
  copy_at-Copies (some at) g gave m = Returns.bind (string_copy-GetsText syspath g) λ x k r.
      proceed-Returns _ _ x k r
        (λ e lack f.
          lose-Copies (some (record { at = at; syspath = none; port_name = none })) e g k
            (Short-before m lack) (record { live = λ a. omega (arith, m.live a); same = m.same }) f)
        λ s q n.
          port_name-Copies at s k q
            (record { live = λ a. omega (arith, m.live a, n.live a); same = n.same ∙ m.same })

-- `libusbp_serial_port_copy` of a port with both texts gives one with the same texts that shares no
-- block with it; or, where a request for memory fails, an error and NULL, and nothing else stays
-- allocated.
pub serial_port_copy-CopiesPort :
    (at : ℕ) (syspath port_name : Text) (h : Heap)
    → Returns
        (CopiesPort syspath port_name h)
        (serial_port_copy (some (complete_port at syspath port_name)) h)
unfolding serial_port_copy
serial_port_copy-CopiesPort at syspath port_name h =
    Returns.bind (malloc-Gave h) λ p g (gave, m). copy_at-Copies at syspath port_name h p g gave m

pub serial_port_get_name-GetsText :
    (at : ℕ) (syspath port_name : Text) (h : Heap)
    → Returns
        (GetsText port_name h)
        (serial_port_get_name (some (complete_port at syspath port_name)) h)
unfolding serial_port_get_name copy_text
serial_port_get_name-GetsText at syspath port_name h = string_copy-GetsText port_name h
