-- ===== src/Finding/Found.antt =====
-- The interface of a device and the tty of an interface, as libudev lists them.
use libusbp.Base.{
  ℕ, ◌≡◌, refl, ◌∙◌, ◌⊎◌, inl, inr, Option, none, some, List, [], ◌++◌, ◌∷◌, arith, text,
}
use libusbp.Print.{decimal}
use libusbp.Heap.{Heap, Blocks, no_blocks, block}
use libusbp.Heap.Moves.{Moves, Short, Short-before, free-Moves}
use libusbp.Heap.Returns
use libusbp.Heap.Returns.{Returns, returns}
use libusbp.Error.{Error, ErrorPtr, chars_of, codes_of, error_not_ready}
use libusbp.Error.Chain.{Carries, HasMemoryCode, error_create-Carries, error_add_code-Carries}
use libusbp.Steps.{Failed, Gets, proceed-Returns}
use libusbp.Udev.{Libudev, UdevDevice}
use libusbp.Udev.Objects.{
  RefusesUsb, create_usb_list-Opened, RefusesChildren, create_child_list-Opened,
}
use libusbp.Finding.{settle, settle_absent, broken_list, get_interface, get_tty}
use libusbp.Finding.Verdicts.{is_interface, check_interface-Judges, is_tty?, check_tty-Judges}
use libusbp.Finding.Loop.{Outcome, search, Searched, find_loop-Searched}

-- The first interface with the number among the children of the device.
abbrev pub interface_of : Libudev → (path : List ℕ) → (interface_number : ℕ) → Outcome
interface_of lib path interface_number = search lib (is_interface path interface_number) lib.names

-- The message and the code NOT_READY, or the code for a lack of memory.
abbrev pub TellsNotReady : List ℕ → Error → Type 0
TellsNotReady message e =
    ((chars_of e.message ≡ message) × (codes_of e.code_array ≡ error_not_ready ∷ []))
    ⊎ HasMemoryCode e

-- Why nothing was found: a request for memory fails, libudev refuses the enumeration, the search
-- breaks off, or there is nothing to find, and the error says so.
pub data Misses (Refused : Type 0) (s : Outcome) (message : List ℕ) (h : Heap) (e : Error)
    : Type 0 where
  short : Short h → Misses Refused s message h e
  refused : Refused → Misses Refused s message h e
  broken_off : s ≡ none → Misses Refused s message h e
  absent : s ≡ some none → TellsNotReady message e → Misses Refused s message h e

pub Misses-before :
    {Refused : Type 0} {s : Outcome} {message : List ℕ} {h g : Heap} {e : Error} {old new : Blocks}
    → Moves h old new g
    → Misses Refused s message g e
    → Misses Refused s message h e
Misses-before m (short lack) = short (Short-before m lack)
Misses-before m (refused r) = refused r
Misses-before m (broken_off b) = broken_off b
Misses-before m (absent a t) = absent a t

-- The device that the search finds; or an error with its reason, and NULL.
abbrev pub Finds :
    Type 0 → Outcome → (message : List ℕ) → Heap → ErrorPtr × Option UdevDevice → Heap → Type 0
Finds Refused s message h =
    Gets (Misses Refused s message h) (λ dev. s ≡ some (some dev.info)) (λ dev. block dev.at) h

module _ (Refused : Type 0) (s : Outcome) (message : List ℕ) (list : ℕ) (h g : Heap)
    (m : Moves h no_blocks (block list) g) where
  absent-Finds :
      (e : ErrorPtr) (j k : Heap)
      → s ≡ some none
      → Moves g no_blocks no_blocks j
      → Carries no_blocks message (error_not_ready ∷ []) j e k
      → Returns (Finds Refused s message h) (settle_absent list e k)
  unfolding settle_absent
  absent-Finds none j k q n c = absurd c
  absent-Finds (some e) j k q n c =
      Returns.bind
        (free-Moves (some list) k (λ a. omega (arith, m.live a, n.live a, c.moves.live a)))
        λ _ i f. returns (
          refl,
          (
            absent q c.tells,
            (
              c.valid,
              record {
                live = λ a. omega (arith, m.live a, n.live a, c.moves.live a, f.live a);
                same = f.same ∙ c.moves.same ∙ n.same ∙ m.same;
              },
            ),
          ),
        )

  settle-Finds :
      (x : ErrorPtr × Option UdevDevice) (k : Heap)
      → Searched s g x k
      → Returns (Finds Refused s message h) (settle message list x k)
  unfolding settle
  settle-Finds (none, none) k (q, n) = Returns.bind (error_create-Carries message k) λ e j c.
      Returns.bind (error_add_code-Carries e error_not_ready message [] j (λ a. omega arith) c)
        λ e' i c'. absent-Finds e' k i q n c'
  settle-Finds (none, some dev) k (q, n) =
      Returns.bind (free-Moves (some list) k (λ a. omega (arith, m.live a, n.live a))) λ _ j f.
        returns (
          q,
          record {
            live = λ a. omega (arith, m.live a, n.live a, f.live a);
            same = f.same ∙ n.same ∙ m.same;
          },
        )
  settle-Finds (some e, x) k (q, (w, (v, n))) =
      Returns.bind (free-Moves (some list) k (λ a. omega (arith, m.live a, n.live a))) λ _ j f.
        returns (
          refl,
          (
            elim w [ inl lack ↦ short (Short-before m lack) | inr b ↦ broken_off b ],
            (
              v,
              record {
                live = λ a. omega (arith, m.live a, n.live a, f.live a);
                same = f.same ∙ n.same ∙ m.same;
              },
            ),
          ),
        )

broken_list-Finds :
    (Refused : Type 0) (s : Outcome) (message : List ℕ) (h : Heap) (e : Error) (g : Heap)
    → Short h ⊎ Refused
    → Failed e h g
    → Returns (Finds Refused s message h) (broken_list e none g)
unfolding broken_list
broken_list-Finds Refused s message h e g q (v, m) =
    Returns.bind (free-Moves none g (λ a. omega arith)) λ _ j n. returns (
      refl,
      (
        elim q [ inl lack ↦ short lack | inr r ↦ refused r ],
        (v, record { live = λ a. omega (arith, m.live a, n.live a); same = n.same ∙ m.same }),
      ),
    )

-- `udevw_get_interface` gives the first interface among the USB devices of libudev that has the
-- number and is a child of the device with the syspath. It returns an error, and nothing else stays
-- allocated, only where a request for memory fails, libudev refuses, the search breaks off at a
-- device of which libudev tells too little, or there is no such interface; then the error has the
-- code LIBUSBP_ERROR_NOT_READY, unless memory runs out for it.
pub get_interface-Finds :
    (lib : Libudev) (device_syspath : List ℕ) (interface_number : ℕ) (h : Heap)
    → Returns
        (Finds
          (RefusesUsb lib)
          (interface_of lib device_syspath interface_number)
          (text "Could not find interface " ++ (decimal interface_number ++ text "."))
          h)
        (get_interface lib device_syspath interface_number h)
unfolding get_interface
get_interface-Finds lib device_syspath interface_number h =
    Returns.bind (create_usb_list-Opened lib h) λ x g m.
      proceed-Returns broken_list _ x g m
        (λ e q f. broken_list-Finds (RefusesUsb lib) _ _ h e g q f)
        λ list _ n.
          Returns.bind
            (find_loop-Searched lib (is_interface device_syspath interface_number) _ lib.names g
              (check_interface-Judges device_syspath interface_number))
            λ y k r. settle-Finds (RefusesUsb lib) _ _ list h g n y k r

-- `udevw_get_tty` gives the first child of the interface in the subsystem "tty". It returns an error
-- under the same conditions as `udevw_get_interface`, with that code where there is no such child.
pub get_tty-Finds :
    (lib : Libudev) (parent : UdevDevice) (h : Heap)
    → Returns
        (Finds
          (RefusesChildren lib parent.info.syspath)
          (search lib is_tty? (lib.child_names parent.info.syspath))
          (text "Could not find tty device.")
          h)
        (get_tty lib parent h)
unfolding get_tty
get_tty-Finds lib parent h = Returns.bind (create_child_list-Opened lib parent h) λ x g m.
    proceed-Returns broken_list _ x g m
      (λ e q f. broken_list-Finds (RefusesChildren lib parent.info.syspath) _ _ h e g q f)
      λ list _ n.
        Returns.bind (find_loop-Searched lib is_tty? _ _ g check_tty-Judges)
          λ y k r. settle-Finds (RefusesChildren lib parent.info.syspath) _ _ list h g n y k r
