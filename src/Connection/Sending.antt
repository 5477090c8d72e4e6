-- ===== src/Connection/Sending.antt =====
-- LuxPolaris/src/TCPConnection.cc: what `sendInLoop` keeps of the bytes of a connection.
use lux_polaris.Prelude.{
  ℕ, ◌+◌, ◌≤◌, ◌≡◌, refl, sym, ap, ◌∙◌, subst, true, false, List, ◌++◌, arith, leb, length, Holds,
  Bool-cases, inl, inr,
}
use lux_polaris.Prelude.Words.{max_size}
use lux_polaris.Connection.{
  Connection, Written, is_disconnected, sends_in_loop, attempt, after_write, wrote, refused,
}
use lux_polaris.Connection.Invariant.{Takes, is_broken, stream}
use lux_polaris.Connection.Stream.{Extends, sends_in_loop_lem, sends_waiting}
use lux_polaris.Connection.Runs.{is_direct, accepted, Whole, Kept, unmoved}

leb_self : (n : ℕ) → leb n n ≡ true
leb_self n = ground arith

abbrev Accepts : (List ℕ → Written) → List ℕ → Connection → Type 0
Accepts write message c = Holds (Kept c (accepted write message c)) (sends_in_loop write message c)

module _ (c : Connection) (w : Whole c) (write : List ℕ → Written) (message : List ℕ) where
  closed-Accepts : is_disconnected c.state ≡ true → Accepts write message c
  unfolding sends_in_loop
  closed-Accepts gone = rw gone (unmoved c c w refl refl)

  broken-Accepts :
      (a : Written)
      → is_disconnected c.state ≡ false
      → is_direct c ≡ true
      → write message ≡ a
      → is_broken a ≡ true
      → Accepts write message c
  unfolding sends_in_loop attempt after_write
  broken-Accepts (wrote n) live direct e broken = absurd (ground arith)
  broken-Accepts (refused r) live direct e broken =
      rw live
        (rw direct (rw e (rw broken (rw (leb_self (length message)) (unmoved c c w refl refl)))))

  of_Extends :
      is_disconnected c.state ≡ false
      → accepted write message c ≡ message
      → Extends c message (sends_in_loop write message c)
      → Accepts write message c
  of_Extends live all_of_it (d, e, v, all, same) =
      subst (Holds (Kept c (accepted write message c))) (sym e) (
        record { valid = v; quiet = λ h. absurd (ground (arith, same)) },
        all ∙ ap (λ m. stream c ++ m) (sym all_of_it),
      )

  pub sends_in_loop-Kept :
      Takes (length message) (write message)
      → c.output.writer_index + length message ≤ max_size
      → Accepts write message c
  sends_in_loop-Kept takes room = elim (Bool-cases (is_disconnected c.state)) [
    | inl gone ↦ closed-Accepts gone
    | inr live ↦ elim (Bool-cases (is_direct c)) [
      | inl direct ↦ elim (Bool-cases (is_broken (write message))) [
        | inl broken ↦ broken-Accepts (write message) live direct refl broken
        | inr fine ↦
            of_Extends live (rw live (rw fine (ground arith)))
              (sends_in_loop_lem w.valid live write message takes fine room)
      ]
      | inr later ↦
          of_Extends live (rw live (rw later refl))
            (sends_waiting w.valid live write message (ground (arith, w.valid.pending live)) room)
    ]
  ]
