-- ===== src/Command/Session.antt =====
-- A command that one bot sends and another reads.
use ct_bot.Base.{
  ℕ, ◌%◌, ◌≤◌, ◌<◌, ◌≡◌, ◌≢◌, refl, ap, sym, ◌∙◌, true, some, List, ◌∷◌, ◌++◌, map, arith, length,
  drop, All, drop-length-append,
}
use ct_bot.Command.{
  Command, Result, bytes_of, is_for, command_read, cmd_startcode, cmd_stopcode, command_size,
}
use ct_bot.Command.Send.{Sender, command_write_to_internal}
use ct_bot.Command.Frame.{Fits}
use ct_bot.Command.Receive.{joined, command_read-bytes_of}

-- What `command_write_to_internal` leaves behind.
sent_frame :
    (write : List ℕ → ℕ) (address : ℕ) (s : Sender)
    (command subcommand to data_l data_r payload : ℕ)
    → let t =
        (command_write_to_internal
          (some write)
          address
          s
          command
          subcommand
          to
          data_l
          data_r
          payload).1 in
      (t.sent ≡ s.sent ++ bytes_of t.cmd_to_send)
      × (t.cmd_to_send.command ≡ command)
      × (t.cmd_to_send.subcommand ≡ subcommand % 128)
      × (t.cmd_to_send.data_l ≡ data_l)
      × (t.cmd_to_send.data_r ≡ data_r)
      × (t.cmd_to_send.payload ≡ payload)
      × (t.cmd_to_send.from ≡ address)
      × (t.cmd_to_send.direction ≡ 0)
      × (t.cmd_to_send.crc ≡ cmd_stopcode)
unfolding command_write_to_internal
sent_frame write address s command subcommand to data_l data_r payload =
    (refl, refl, refl, refl, refl, refl, refl, refl, refl)

module _ (write : List ℕ → ℕ) (sender receiver : ℕ) (s : Sender)
    (command subcommand to data_l data_r payload : ℕ) (stack : List ℕ) (old : Command)
    (junk head : List ℕ) (chunks : List (List ℕ)) where
  abbrev after : Sender
  after =
      (command_write_to_internal (some write) sender s command subcommand to data_l data_r
        payload).1

  -- The command that one bot writes is what another, for which it is, reads: with the same command,
  -- data and payload length, the subcommand's low 7 bits and the writer's address. The bytes may come in
  -- any pieces, of which the first, of at most 12 bytes with others before it that are no start code,
  -- has the start code. The data are 16 bits wide.
  pub command_read-command_write :
      data_l < 65536
      → data_r < 65536
      → is_for receiver after.cmd_to_send ≡ true
      → All (λ b. b ≢ cmd_startcode) junk
      → drop (length s.sent) after.sent ≡ (cmd_startcode ∷ head) ++ joined chunks
      → length (junk ++ (cmd_startcode ∷ head)) ≤ command_size
      → let r = command_read receiver stack old (record {
        first = some (junk ++ (cmd_startcode ∷ head));
        later = map (λ x. some x) chunks;
      }) in
        (r.0 ≡ Result.ok)
        × (r.1.command ≡ command)
        × (r.1.subcommand ≡ subcommand % 128)
        × (r.1.data_l ≡ data_l)
        × (r.1.data_r ≡ data_r)
        × (r.1.payload ≡ payload)
        × (r.1.from ≡ sender)
  command_read-command_write hl hr mine clean pieces short =
      let (bytes, c, sub, l, r, p, f, d, stop) =
        sent_frame write sender s command subcommand to data_l data_r payload in
      let fits : Fits after.cmd_to_send = record {
        subcommand = omega (arith, sub);
        direction = omega (arith, d);
        data_l = omega (arith, l);
        data_r = omega (arith, r);
      } in
      let whole : bytes_of after.cmd_to_send ≡ (cmd_startcode ∷ head) ++ joined chunks =
        sym (drop-length-append s.sent (bytes_of after.cmd_to_send))
        ∙ ap (drop (length s.sent)) (sym bytes)
        ∙ pieces in
      rw
        (command_read-bytes_of receiver stack old after.cmd_to_send junk head chunks fits stop mine
          clean whole short)
        (refl, c, sub, l, r, p, f)
