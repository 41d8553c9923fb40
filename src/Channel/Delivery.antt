-- ===== src/Channel/Delivery.antt =====
-- What the subscribers of a buffered channel receive.
use hotshot_query_service.Prelude.{
  List, [], ◌∷◌, ◌++◌, length, drop, append-nil, append_assoc, ◌≡◌, refl, sym, ap, ◌∙◌,
}
use hotshot_query_service.Channel.{
  BufferedChannel, push, send_all, flush, clear, subscribe, received,
}

module _ {T : Type 0} where
  -- Messages pushed one after the other.
  unfoldable pub push_all : List T → BufferedChannel T → BufferedChannel T
  unfolding push
  push_all [] c = c
  push_all (msg ∷ msgs) c = push_all msgs (push c msg)

  send_all-sent :
      (msgs : List T) (c : BufferedChannel T) → send_all msgs c ≡ record c { sent = c.sent ++ msgs }
  unfolding send_all
  send_all-sent [] c = ap (λ xs. record c { sent = xs }) (sym (append-nil c.sent))
  send_all-sent (msg ∷ msgs) c =
      send_all-sent msgs (record c { sent = c.sent ++ (msg ∷ []) })
      ∙ ap (λ xs. record c { sent = xs }) (append_assoc c.sent (msg ∷ []) msgs)

  push_all-pending :
      (msgs : List T) (c : BufferedChannel T)
      → push_all msgs c ≡ record c { pending = c.pending ++ msgs }
  unfolding push_all push
  push_all-pending [] c = ap (λ xs. record c { pending = xs }) (sym (append-nil c.pending))
  push_all-pending (msg ∷ msgs) c =
      push_all-pending msgs (push c msg)
      ∙ ap (λ xs. record c { pending = xs }) (append_assoc c.pending (msg ∷ []) msgs)

  pub flush_lem :
      (c : BufferedChannel T) → flush c ≡ record { pending = []; sent = c.sent ++ c.pending }
  unfolding flush
  flush_lem c = send_all-sent c.pending (record c { pending = [] })

  drop-all : (xs ys : List T) → drop (length xs) (xs ++ ys) ≡ ys
  drop-all [] ys = refl
  drop-all (x ∷ xs) ys = drop-all xs ys

  flushed :
      (msgs : List T) (c : BufferedChannel T)
      → flush (push_all msgs c) ≡ record { pending = []; sent = c.sent ++ (c.pending ++ msgs) }
  unfolding flush
  flushed msgs c =
      ap flush (push_all-pending msgs c)
      ∙ send_all-sent (c.pending ++ msgs) (record c { pending = [] })

  -- A subscriber of a buffered channel receives nothing of what is pushed until a flush, and then
  -- what was pending and what was pushed, in order; after a clear, it receives what was pushed
  -- since. A flush leaves nothing pending.
  pub flush-delivers :
      (c : BufferedChannel T) (msgs : List T)
      → (received (subscribe c) (push_all msgs c) ≡ [])
        × (received (subscribe c) (flush (push_all msgs c)) ≡ c.pending ++ msgs)
        × (received (subscribe c) (flush (push_all msgs (clear c))) ≡ msgs)
        × ((flush (push_all msgs c)).pending ≡ [])
  unfolding received subscribe clear
  flush-delivers c msgs = (
    ap (λ d. drop (length c.sent) d.sent) (push_all-pending msgs c)
        ∙ ap (drop (length c.sent)) (sym (append-nil c.sent))
        ∙ drop-all c.sent [],
    ap (λ d. drop (length c.sent) d.sent) (flushed msgs c) ∙ drop-all c.sent (c.pending ++ msgs),
    ap (λ d. drop (length c.sent) d.sent) (flushed msgs (clear c)) ∙ drop-all c.sent msgs,
    ap (λ d. d.pending) (flushed msgs c),
  )
