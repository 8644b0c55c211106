-- ===== src/P2p/Up/Limit.antt =====
-- How often a frame is sent again (`updateRadioState` of Firmware/LoRaSerial/States.ino).
use spark_fun_lo_ra_serial.Base.{
  ℕ, ◌*◌, ◌<◌, ◌≡◌, refl, ap, ◌∙◌, false, not, if◌then◌else◌, if-false, elapsed, List, leb, arith,
}
use spark_fun_lo_ra_serial.Datagram.{PacketType}
use spark_fun_lo_ra_serial.P2p.{
  RadioState, link_up, link_up_wait_tx_done, reset, hop, return_to_receiving,
}
use spark_fun_lo_ra_serial.P2p.Up.{
  in_state, link_break_multiplier, hop_if_due, Exchange, Turn, break_link, transmit_next, receive,
  process_frame, update_link_up, update_wait_tx_done, update_exchange, link_timed_out,
}
use spark_fun_lo_ra_serial.P2p.Up.Sends.{
  IsFew, GoesOn, if_either, same-GoesOn, process_frame-IsFew, transmit_next-GoesOn,
  transmit_next-IsFew,
}

receive-IsFew :
    (decrypt : List ℕ → List ℕ → List ℕ) (t : Turn) (u : Exchange)
    → IsFew u
    → IsFew (receive decrypt t u).2
unfolding receive
receive-IsFew decrypt t u few = record { sent = few.sent; kept = few.kept }

break_link-IsFew : (t : Turn) (u : Exchange) → IsFew u → IsFew (break_link t u)
unfolding break_link
break_link-IsFew t u few = record { sent = few.sent; kept = few.kept }

hop-IsFew : (u : Exchange) → IsFew u → IsFew (hop_if_due u)
hop-IsFew u few =
    if_either IsFew u.partner.time_to_hop (record { sent = few.sent; kept = few.kept }) few

hop-up : (u : Exchange) → ¬ u.partner.state ≡ reset → ¬ (hop_if_due u).partner.state ≡ reset
unfolding hop
hop-up u below =
    if_either (λ (v : Exchange). ¬ v.partner.state ≡ reset) u.partner.time_to_hop below below

module _ (encrypt decrypt : List ℕ → List ℕ → List ℕ) where
  update_link_up-IsFew :
      (t : Turn) (u : Exchange)
      → IsFew u
      → ¬ u.partner.state ≡ reset
      → IsFew (update_link_up encrypt decrypt t u)
  unfolding update_link_up
  update_link_up-IsFew t u0 few0 below0 =
      if_either IsFew (link_timed_out t v) (break_link-IsFew t v few) few
    where
      u : Exchange
      u = hop_if_due u0

      heard : PacketType × List ℕ × Exchange
      heard = receive decrypt t u

      v : Exchange
      v =
          if u.partner.transaction_complete
          then process_frame encrypt heard.0 heard.1 t heard.2
          else if not t.moment.receiving
          then transmit_next encrypt t u
          else u

      few : IsFew v
      few =
          if_either IsFew u.partner.transaction_complete
            (process_frame-IsFew encrypt heard.0 heard.1 t heard.2
              (receive-IsFew decrypt t u (hop-IsFew u0 few0)))
            (if_either IsFew (not t.moment.receiving)
              (transmit_next-IsFew encrypt t u (hop-IsFew u0 few0) (hop-up u0 below0))
              (hop-IsFew u0 few0))

  in_state-IsFew :
      (state : RadioState) (t : Turn) (u : Exchange)
      → u.partner.state ≡ state
      → IsFew u
      → IsFew (in_state encrypt decrypt state t u)
  unfolding in_state update_wait_tx_done return_to_receiving hop
  in_state-IsFew link_up t u st few = update_link_up-IsFew t u few (λ e. ground arith)
  in_state-IsFew link_up_wait_tx_done t u st few = ground arith
  in_state-IsFew _ t u st few = few

  -- Whatever happens in a pass of updateRadioState while the link is up, if frameSentCount was at
  -- most 2 and the count saved with the frame to be sent again at most 1, they still are.
  pub update_exchange-IsFew :
      (t : Turn) (u : Exchange) → IsFew u → IsFew (update_exchange encrypt decrypt t u)
  unfolding update_exchange
  update_exchange-IsFew t u few = in_state-IsFew u.partner.state t u refl few

  transmitted-GoesOn :
      (t : Turn) (u : Exchange)
      → IsFew u
      → 2 < t.max_resends
      → ¬ u.partner.state ≡ reset
      → GoesOn u (if not t.moment.receiving then transmit_next encrypt t u else u)
  transmitted-GoesOn t u few high below =
      if_either (GoesOn u) (not t.moment.receiving)
        (transmit_next-GoesOn encrypt t u few high below) (same-GoesOn u few below)

  -- If frameSentCount is at most 2 and the saved count at most 1, which every pass keeps, and more
  -- than two resends are allowed, then a pass of updateRadioState while the link is up and has not
  -- timed out, with no frame received, does not break the link: the limit of resends is not
  -- reached.
  pub never_gives_up :
      (t : Turn) (u : Exchange)
      → IsFew u
      → 2 < t.max_resends
      → u.partner.state ≡ link_up
      → u.partner.transaction_complete ≡ false
      → link_timed_out t u ≡ false
      → ¬ (update_exchange encrypt decrypt t u).partner.state ≡ reset
  unfolding update_exchange update_link_up in_state hop
  never_gives_up t u0 few high st quiet timely =
      rw (ap (λ s. in_state encrypt decrypt s t u0) st, if-false _ _ still, if-false _ _ late)
        goes.up
    where
      u : Exchange
      u = hop_if_due u0

      below : ¬ u.partner.state ≡ reset
      below = hop-up u0 (λ e. ground arith)

      goes : GoesOn u (if not t.moment.receiving then transmit_next encrypt t u else u)
      goes = transmitted-GoesOn t u (hop-IsFew u0 few) high below

      still : u.partner.transaction_complete ≡ false
      still = ground arith

      same : u.radio ≡ u0.radio
      same = ground arith

      late :
          link_timed_out t (if not t.moment.receiving then transmit_next encrypt t u else u) ≡ false
      late =
          ap
            (λ n.
              leb (link_break_multiplier * t.moment.timing.heartbeat_timeout)
                (elapsed t.moment.port.millis n))
            (goes.timer ∙ ap (λ r. r.link_down_timer) same)
          ∙ timely
