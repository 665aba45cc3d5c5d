-- ===== src/Interface/Ends.antt =====
-- The end of the creation of an interface, which frees what is not passed on.
use libusbp.Base.{
  ℕ, ◌+◌, ◌≡◌, refl, sym, subst, ◌∙◌, inl, inr, Bool, true, false, ◌||◌, Bool-cases, Option, none,
  some, List, text, same_text, arith,
}
use libusbp.Heap.{Heap, Blocks, no_blocks, block?}
use libusbp.Heap.Moves.{Moves}
use libusbp.Heap.Returns
use libusbp.Heap.Returns.{Returns, returns}
use libusbp.Error.{Error, ErrorPtr, text_block, chars_of, codes_of}
use libusbp.Error.Chain.{Carries, error_create-Carries, error_add-Carries}
use libusbp.Error.Message.{joined}
use libusbp.Device
use libusbp.Device.{device_free}
use libusbp.Device.Steps.{device_free-Ends, string_free-Ends}
use libusbp.Steps.{
  Failed, Gets, Checks, failed-Checks, SaysMore, Ends, pure-Ends, free-Ends, same-Ends,
}
use libusbp.Udev.{UdevDevice}
use libusbp.Interface.{
  Interface, Created, Locals, owned, finish, fail, check_driver, check_driver_installation,
}

abbrev pub held : Locals → Blocks
held l a =
    block? (text_block l.filename) a
    + (block? (text_block l.interface_syspath) a
        + (block? (text_block l.device_syspath) a
            + (Device.owned? l.device a + (block? l.gi a + (block? l.dev a + block? l.udev a)))))

pub finish-Ends : (l : Locals) (result : Created) → Ends (held l) (finish l result) result
unfolding finish
finish-Ends l result = string_free-Ends l.filename _ _ _ (
    string_free-Ends l.interface_syspath _ _ _ (
      string_free-Ends l.device_syspath _ _ _ (
        device_free-Ends l.device _ _ _ (
          free-Ends l.gi _ _ _ (
            free-Ends l.dev _ _ _ (
              same-Ends _ _ _ _ (λ a. omega arith) (free-Ends l.udev _ _ _ (pure-Ends result))))))))

abbrev pub failure : List ℕ
failure = text "Failed to initialize generic interface."

-- After an error what was made is freed, and the error says that the creation failed.
pub fail-Gets :
    (R : Error → Type 0) (P : Interface → Type 0) (l : Locals) (e : Error) (h g k : Heap)
    → Moves h no_blocks (held l) g
    → Failed e g k
    → ((r : Error) → SaysMore failure e r → R r)
    → Returns (Gets R P owned h) (fail l e k)
unfolding fail
fail-Gets R P l e h g k m (v, n) tells =
    Returns.bind
      (error_add-Carries (some e) failure (chars_of e.message) (codes_of e.code_array) k
        (λ a. omega arith) (record { moves = n; valid = v; tells = inl (refl, refl) }))
      λ r j c. ended r j c
  where
    ended :
        (r : ErrorPtr) (j : Heap)
        → Carries no_blocks (joined failure (chars_of e.message)) (codes_of e.code_array) g r j
        → Returns (Gets R P owned h) (finish l (r, none) j)
    ended none j c = absurd c
    ended (some r) j c =
        Returns.mono (finish-Ends l (some r, none) j (λ a. omega (arith, m.live a, c.moves.live a)))
          λ x i (q, f).
            subst (λ y. Gets R P owned h y i) (sym q)
              (
                refl,
                (
                  tells r c.tells,
                  (
                    c.valid,
                    record {
                      live = λ a. omega (arith, m.live a, c.moves.live a, f.live a);
                      same = f.same ∙ c.moves.same ∙ m.same;
                    },
                  ),
                ),
              )

-- The drivers with which the library works: none, or one of two.
abbrev pub is_accepted_driver : Option (List ℕ) → Bool
is_accepted_driver none = true
is_accepted_driver (some name) = same_text name (text "usbfs") || same_text name (text "cp210x")

check_driver-Checks :
    (driver : Option (List ℕ)) (h : Heap)
    → Returns
        (Checks (is_accepted_driver driver ≡ true) (λ _. is_accepted_driver driver ≡ false) h)
        (check_driver driver h)
unfolding check_driver
check_driver-Checks none h = returns (refl, refl)
check_driver-Checks (some name) h =
    elim (Bool-cases (same_text name (text "usbfs") || same_text name (text "cp210x"))) [
      | inl d ↦ simp d (returns (refl, refl))
      | inr d ↦ simp d (
          Returns.mono (error_create-Carries _ h)
            λ e g c. failed-Checks (false ≡ true) (λ _. false ≡ false) _ _ h e g (λ r _. refl) c)
    ]

-- `check_driver_installation` returns an error exactly where a driver other than usbfs and cp210x is
-- attached to the device.
pub check_driver_installation-Checks :
    (dev : UdevDevice) (h : Heap)
    → Returns
        (Checks
          (is_accepted_driver dev.info.driver ≡ true)
          (λ _. is_accepted_driver dev.info.driver ≡ false)
          h)
        (check_driver_installation dev h)
unfolding check_driver_installation
check_driver_installation-Checks dev h = check_driver-Checks dev.info.driver h
