-- ===== src/Hermes/Client/Queues.antt =====
-- internal/hermes/client.go: what a burst of messages leaves in the queue of the processor.
use lucas.Base.{
  ◌<◌, ◌≤◌, true, List, [], ◌∷◌, ◌++◌, map, ◌≡◌, ◌∙◌, sym, ap, arith, length, length-append, take,
  take-append_length, take_full, append_assoc, append-nil, dec_lt, subst,
}
use lucas.Hermes.Wire.{Msg}
use lucas.Hermes.Client.State.{HermesClient}
use lucas.Hermes.Client.Loops.{messages_capacity, Received, message, read_socket}

-- The reader's turns, one after the other.
unfoldable pub read_all : HermesClient → List Received → HermesClient
unfolding read_socket
read_all c [] = c
read_all c (r ∷ rs) = read_all (read_socket c r) rs

abbrev queueing : HermesClient → List Msg → HermesClient
queueing c ms = record c { messages = ms }

read_socket-room :
    (c : HermesClient) (raw : Msg)
    → c.has_socket ≡ true
    → length c.messages < messages_capacity
    → read_socket c (message raw) ≡ queueing c (c.messages ++ raw ∷ [])
unfolding read_socket
read_socket-room c raw s h = ground arith

read_socket-full :
    (c : HermesClient) (raw : Msg)
    → messages_capacity ≤ length c.messages
    → read_socket c (message raw) ≡ c
unfolding read_socket
read_socket-full c raw h = ground arith

-- A full queue is all that is taken.
take-full :
    (ms rest : List Msg) → length ms ≡ messages_capacity → take messages_capacity (ms ++ rest) ≡ ms
take-full ms rest e = subst (λ n. take n (ms ++ rest) ≡ ms) e (take-append_length ms rest)

-- A burst of messages, read before the processor takes its turn, is queued in its order behind
-- what is there, up to a hundred messages; what comes after them is dropped, and nothing else of
-- the client changes.
pub read_all-messages :
    (c : HermesClient) (raws : List Msg)
    → c.has_socket ≡ true
    → length c.messages ≤ messages_capacity
    → read_all c (map message raws)
      ≡ record c { messages = take messages_capacity (c.messages ++ raws) }
unfolding read_all
read_all-messages c [] s h =
    ap (queueing c) (sym (rw append-nil (take_full c.messages messages_capacity h)))
read_all-messages c (raw ∷ raws) s h = elim (dec_lt (length c.messages) messages_capacity) [
  | yes room ↦
      let d = queueing c (c.messages ++ raw ∷ []) in
      let less : length d.messages ≤ messages_capacity =
        omega (arith, length-append c.messages (raw ∷ [])) in
      ap (λ u. read_all u (map message raws)) (read_socket-room c raw s room)
      ∙ (read_all-messages d raws s less
          ∙ ap (λ ms. queueing c (take messages_capacity ms))
              (append_assoc c.messages (raw ∷ []) raws))
  | no full ↦
      let size : length c.messages ≡ messages_capacity = omega arith in
      ap (λ u. read_all u (map message raws)) (read_socket-full c raw (omega arith))
      ∙ (read_all-messages c raws s h
          ∙ ap (queueing c)
              (take-full c.messages raws size ∙ sym (take-full c.messages (raw ∷ raws) size)))
]
