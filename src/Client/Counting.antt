-- ===== src/Client/Counting.antt =====
-- The number of players and their list.
use rv_receive.Base.{
  ℕ, suc, ◌≡◌, ◌≢◌, refl, sym, ap, inl, inr, Bool, true, false, ◌||◌, List, [], ◌∷◌, arith, ◌==◌,
  if◌then◌else◌, Bool-cases, length, length-append,
}
use rv_receive.Base.Int.{pos}
use rv_receive.Message.{
  type_client_name, type_client_info, type_media_videodata, type_media_audiodata,
  type_socket_heartbeat, type_udp_support, type_udp_request, type_udp_request2,
  type_network_echotest, type_mirror_stop,
}
use rv_receive.Combine.{PackData}
use rv_receive.Client.{Client, Players, Report}
use rv_receive.Client.Playing.{pred_ℤ, erase, stop_ctrl, start_mirror}
use rv_receive.Client.Messages.{is_start, do_recv_message}

abbrev pub listed : ℕ → List ℕ → Bool
listed id [] = false
listed id (x ∷ xs) = (x == id) || listed id xs

-- The number of players is the length of their list.
abbrev pub Counted : Players → Type 0
Counted ps = ps.client_player_num ≡ pos (length ps.client_player_list)

length-erase : (id : ℕ) (xs : List ℕ) → listed id xs ≡ true → suc (length (erase id xs)) ≡ length xs
unfolding erase
length-erase id [] h = absurd (cc)
length-erase id (x ∷ xs) h = ground (arith, length-erase id xs)

erase_missing : (id : ℕ) (xs : List ℕ) → listed id xs ≡ false → erase id xs ≡ xs
unfolding erase
erase_missing id [] h = refl
erase_missing id (x ∷ xs) h = ground (arith, h, erase_missing id xs)

stop-Counted :
    (c : Client) (ps : Players)
    → Counted ps
    → listed c.client_id ps.client_player_list ≡ true
    → Counted (stop_ctrl c ps).1
unfolding stop_ctrl
stop-Counted c ps n h = rw (n, sym (length-erase c.client_id ps.client_player_list h)) refl

start-Counted :
    (c : Client) (ps : Players) (now : ℕ) → Counted ps → Counted (start_mirror c ps now).1
unfolding start_mirror
start-Counted c ps now n = elim (Bool-cases c.working) [
  | inl at_work ↦ rw at_work n
  | inr idle ↦ rw (idle, n, length-append ps.client_player_list (c.client_id ∷ [])) refl
]

Counted-when :
    (b : Bool) (x y : List Report × Client × Players)
    → (b ≡ true → Counted x.2)
    → (b ≡ false → Counted y.2)
    → Counted (if b then x else y).2
Counted-when true x y h h' = h refl
Counted-when false x y h h' = h' refl

type_is : (t t' : ℕ) → (t == t') ≡ true → t ≡ t'
type_is t t' e = ground (arith, e)

-- A message keeps the number of players that of their list, if a client that is told to stop is in it.
pub do_recv_message-Counted :
    (c : Client) (ps : Players) (p : PackData) (now new_fd : ℕ)
    → Counted ps
    → (p.type ≡ type_mirror_stop → listed c.client_id ps.client_player_list ≡ true)
    → Counted (do_recv_message c ps p now new_fd).2
unfolding do_recv_message
do_recv_message-Counted c ps p now new_fd n h =
    let c' = record c { recv_timeout_counter = 0 } in
    Counted-when (p.type == type_client_name) _ _ (λ e. n)
      (λ e.
        Counted-when (p.type == type_client_info) _ _ (λ e. n)
          (λ e.
            Counted-when (p.type == type_media_videodata) _ _ (λ e. n)
              (λ e.
                Counted-when (p.type == type_media_audiodata) _ _ (λ e. n)
                  (λ e.
                    Counted-when (p.type == type_socket_heartbeat) _ _ (λ e. n)
                      (λ e.
                        Counted-when (p.type == type_udp_support) _ _ (λ e. n)
                          (λ e.
                            Counted-when (p.type == type_udp_request) _ _ (λ e. n)
                              (λ e.
                                Counted-when (p.type == type_udp_request2) _ _ (λ e. n)
                                  (λ e.
                                    Counted-when (p.type == type_network_echotest) _ _ (λ e. n)
                                      (λ e.
                                        Counted-when (is_start p.type) _ _
                                          (λ e. start-Counted c' ps now n)
                                          (λ e.
                                            Counted-when (p.type == type_mirror_stop) _ _
                                              (λ e.
                                                stop-Counted c' ps n
                                                  (h (type_is p.type type_mirror_stop e)))
                                              (λ e. n)))))))))))

skip_if :
    (b : Bool) (x y : List Report × Client × Players) {q : Players}
    → b ≡ false
    → y.2 ≡ q
    → (if b then x else y).2 ≡ q
skip_if true x y h e = absurd (cc)
skip_if false x y h e = e

take_if :
    (b : Bool) (x y : List Report × Client × Players) {q : Players}
    → b ≡ true
    → x.2 ≡ q
    → (if b then x else y).2 ≡ q
take_if true x y h e = e
take_if false x y h e = absurd (cc)

differs : (t k t' : ℕ) → t ≡ k → k ≢ t' → (t == t') ≡ false
differs t k t' e ne = ground (arith, e, ne)

-- The players after a message that tells the client to stop.
on_stop :
    (c : Client) (ps : Players) (p : PackData) (now new_fd : ℕ)
    → p.type ≡ type_mirror_stop
    → (do_recv_message c ps p now new_fd).2
      ≡ (stop_ctrl (record c { recv_timeout_counter = 0 }) ps).1
unfolding do_recv_message
on_stop c ps p now new_fd e =
    let other = λ (t : ℕ) (ne : type_mirror_stop ≢ t). differs p.type type_mirror_stop t e ne in
    skip_if _ _ _ (other type_client_name (omega arith)) (
      skip_if _ _ _ (other type_client_info (omega arith)) (
        skip_if _ _ _ (other type_media_videodata (omega arith)) (
          skip_if _ _ _ (other type_media_audiodata (omega arith)) (
            skip_if _ _ _ (other type_socket_heartbeat (omega arith)) (
              skip_if _ _ _ (other type_udp_support (omega arith)) (
                skip_if _ _ _ (other type_udp_request (omega arith)) (
                  skip_if _ _ _ (other type_udp_request2 (omega arith)) (
                    skip_if _ _ _ (other type_network_echotest (omega arith)) (
                      skip_if (is_start p.type) _ _ (no_start p.type e)
                        (take_if _ _ _ (same_type p.type e) refl))))))))))
  where
    no_start : (t : ℕ) → t ≡ type_mirror_stop → is_start t ≡ false
    no_start t e = ground (arith, e)

    same_type : (t : ℕ) → t ≡ type_mirror_stop → (t == type_mirror_stop) ≡ true
    same_type t e = ground (arith, e)

stop_uncounted :
    (c : Client) (ps : Players)
    → Counted ps
    → listed c.client_id ps.client_player_list ≡ false
    → ((stop_ctrl c ps).1.client_player_list ≡ ps.client_player_list)
      × ((stop_ctrl c ps).1.client_player_num ≡ pred_ℤ (pos (length ps.client_player_list)))
unfolding stop_ctrl
stop_uncounted c ps n miss = (erase_missing c.client_id ps.client_player_list miss, ap pred_ℤ n)

-- A client that is not in the list and is told to stop is counted off all the same.
pub do_recv_message_uncounted :
    (c : Client) (ps : Players) (p : PackData) (now new_fd : ℕ)
    → Counted ps
    → p.type ≡ type_mirror_stop
    → listed c.client_id ps.client_player_list ≡ false
    → let after = (do_recv_message c ps p now new_fd).2 in
      (after.client_player_list ≡ ps.client_player_list)
      × (after.client_player_num ≡ pred_ℤ (pos (length ps.client_player_list)))
do_recv_message_uncounted c ps p now new_fd n e miss =
    rw (on_stop c ps p now new_fd e)
      (stop_uncounted (record c { recv_timeout_counter = 0 }) ps n miss)
