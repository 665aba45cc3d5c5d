-- ===== src/Handle/Timeouts.antt =====
-- The timeouts of a handle: one for each endpoint and direction.
use libusbp.Base.{
  ℕ, ◌%◌, ◌<◌, ◌≡◌, ◌≢◌, refl, sym, ◌∙◌, inl, inr, true, Bool-cases, Option, none, some, [], ◌++◌,
  text, arith, leb, length, get_elem?, length-set, get_elem?_lt, get_elem?-set_self,
  get_elem?-set_ne, if◌then◌else◌,
}
use libusbp.Print.{hex}
use libusbp.Heap.{Heap, no_blocks}
use libusbp.Heap.Returns
use libusbp.Heap.Returns.{Returns, returns}
use libusbp.Error.{ErrorPtr}
use libusbp.Error.Chain.{Carries}
use libusbp.PipeId.Range.{is_pipe_id, is_in_lem, endpoint_lem, Checked, check_pipe_id-Checked}
use libusbp.Handle.{Handle, set_timeout, set_if_accepted, write_timeout, store_at}

pub record IsValid (handle : Handle) : Type 0 where
  pub ins : length handle.in_timeout ≡ 16
  pub outs : length handle.out_timeout ≡ 16

-- The timeout for a pipe ID.
abbrev pub timeout_of : Handle → ℕ → Option ℕ
timeout_of handle p =
    if leb 0x80 p
    then get_elem? handle.in_timeout (p % 16)
    else get_elem? handle.out_timeout (p % 16)

pub record TimeoutSet (handle : Handle) (p timeout : ℕ) (handle' : Handle) : Type 0 where
  pub valid : IsValid handle'
  pub now : timeout_of handle' p ≡ some timeout
  pub others : (q : ℕ) → is_pipe_id q ≡ true → p ≢ q → timeout_of handle' q ≡ timeout_of handle q
  pub fd : handle'.fd ≡ handle.fd
  pub device : handle'.device ≡ handle.device

-- Two endpoints in one direction with the same number are the same.
same_endpoint :
    (p q : ℕ)
    → is_pipe_id p ≡ true
    → is_pipe_id q ≡ true
    → leb 0x80 p ≡ leb 0x80 q
    → p % 16 ≡ q % 16
    → p ≡ q
same_endpoint p q a b d n = ground arith

write-TimeoutSet :
    (handle : Handle) (p timeout : ℕ) (h : Heap)
    → IsValid handle
    → p < 256
    → is_pipe_id p ≡ true
    → Returns (λ r g. TimeoutSet handle p timeout r × (g ≡ h)) (write_timeout handle p timeout h)
unfolding write_timeout store_at
write-TimeoutSet handle p timeout h v b a =
    rw (is_in_lem p b, endpoint_lem p b)
      (elim (Bool-cases (leb 0x80 p)) [
        | inl i ↦
            let (t, e) = get_elem?_lt handle.in_timeout (p % 16) (omega (arith, v.ins)) in
            simp (i, e)
              (returns (
                record {
                  valid = record { ins = length-set _ _ _ ∙ v.ins; outs = v.outs };
                  now = simp i (
                      get_elem?-set_self handle.in_timeout (p % 16) timeout (omega (arith, v.ins)));
                  others = λ q c n. elim (Bool-cases (leb 0x80 q)) [
                    | inl j ↦ simp j (
                        get_elem?-set_ne handle.in_timeout _ _ timeout
                          (λ m. n (same_endpoint p q a c (i ∙ sym j) m)))
                    | inr j ↦ simp j refl
                  ];
                  fd = refl;
                  device = refl;
                },
                refl,
              ))
        | inr i ↦
            let (t, e) = get_elem?_lt handle.out_timeout (p % 16) (omega (arith, v.outs)) in
            simp (i, e)
              (returns (
                record {
                  valid = record { ins = v.ins; outs = length-set _ _ _ ∙ v.outs };
                  now = simp i (
                      get_elem?-set_self handle.out_timeout (p % 16) timeout
                        (omega (arith, v.outs)));
                  others = λ q c n. elim (Bool-cases (leb 0x80 q)) [
                    | inl j ↦ simp j refl
                    | inr j ↦ simp j (
                        get_elem?-set_ne handle.out_timeout _ _ timeout
                          (λ m. n (same_endpoint p q a c (i ∙ sym j) m)))
                  ];
                  fd = refl;
                  device = refl;
                },
                refl,
              ))
      ])

-- What a call leaves, by whether the pipe ID is accepted.
abbrev pub SetTimeout : Handle → (p timeout : ℕ) → Heap → ErrorPtr × Handle → Heap → Type 0
SetTimeout handle p timeout h (e, handle') g =
    if is_pipe_id p
    then (e ≡ none) × (TimeoutSet handle p timeout handle' × (g ≡ h))
    else Carries no_blocks (text "Invalid pipe ID 0x" ++ hex 2 p (text ".")) [] h e g
      × (handle' ≡ handle)

set_if_accepted-SetTimeout :
    (handle : Handle) (p timeout : ℕ) (h : Heap) (e : ErrorPtr) (g : Heap)
    → IsValid handle
    → p < 256
    → Checked (is_pipe_id p) p h e g
    → Returns (SetTimeout handle p timeout h) (set_if_accepted handle p timeout e g)
unfolding set_if_accepted
set_if_accepted-SetTimeout handle p timeout h (some e) g v b c = elim (Bool-cases (is_pipe_id p)) [
  | inl a ↦ let q : (some e ≡ none) × (g ≡ h) = rw a at c in cc q.0
  | inr a ↦ returns (simp a (rw a at c, refl))
]
set_if_accepted-SetTimeout handle p timeout h none g v b c = elim (Bool-cases (is_pipe_id p)) [
  | inl a ↦
      let q : (none ≡ none) × (g ≡ h) = rw a at c in
      Returns.bind (write-TimeoutSet handle p timeout g v b a)
        λ r k m. returns (simp a (refl, (m.0, m.1 ∙ q.1)))
  | inr a ↦ absurd (rw a at c)
]

-- `libusbp_generic_handle_set_timeout` accepts the IDs of existing pipes. It then sets the timeout
-- for that pipe and changes no other, so that the IN and the OUT endpoint of one number are apart.
-- For other IDs it changes nothing and returns an error with the ID. It never writes outside the
-- arrays.
pub set_timeout-SetTimeout :
    (handle : Handle) (p timeout : ℕ) (h : Heap)
    → IsValid handle
    → p < 256
    → Returns (SetTimeout handle p timeout h) (set_timeout handle p timeout h)
unfolding set_timeout
set_timeout-SetTimeout handle p timeout h v b =
    Returns.bind (check_pipe_id-Checked p h b)
      λ e g c. set_if_accepted-SetTimeout handle p timeout h e g v b c
