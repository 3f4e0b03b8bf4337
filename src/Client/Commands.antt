-- ===== src/Client/Commands.antt =====
-- socket/TcpClient.cpp, Send: a command of a client that sends its commands over TCP.
use Prim.Native.Nat.{bit_and}
use rv_receive.Base.{
  ℕ, ◌<◌, ◌≡◌, ◌≢◌, refl, ap, ◌∙◌, ◌⊎◌, inl, inr, Bool, true, false, not, Option, none, some, List,
  [], ◌∷◌, ◌++◌, arith, ◌==◌, ◌||◌, if◌then◌else◌, length,
}
use rv_receive.Message.{type_media_videodata, type_media_audiodata, udpsupport_otherdata}
use rv_receive.SendQueue.{SendCacheManager, element, put_send_data}
use rv_receive.Client.{Client, UdpClient, send, udp_send, udp_way}

-- A client that runs, is connected and does not send its commands over UDP, with fewer than thirty video
-- packets waiting.
pub record OnTcp (c : Client) : Type 0 where
  pub running : c.running ≡ true
  pub connected : c.fd_socket ≢ 0
  pub not_udp : (c.udp_client ≡ none) ⊎ (bit_and c.udp_support_type udpsupport_otherdata ≡ 0)
  pub short : length c.send_cache_manager.video_list < 30

-- The client with a message last in its list of commands, and nothing else changed.
abbrev pub queued : Client → ℕ → List ℕ → ℕ → Client
queued c type bytes now = record c {
  send_cache_manager = record (c.send_cache_manager) {
    cmd_list = c.send_cache_manager.cmd_list ++ (element type bytes now ∷ []);
  };
}

pub open_gate :
    (running closed : Bool) (x y : Client)
    → running ≡ true
    → closed ≡ false
    → (if not running || closed then x else y) ≡ y
open_gate true true x y r f = absurd (cc)
open_gate true false x y r f = refl
open_gate false closed x y r f = absurd (cc)

pub not_zero : (n : ℕ) → n ≢ 0 → (n == 0) ≡ false
not_zero n h = ground (arith, h)

no_client : (b : Bool) (o : Option UdpClient) → o ≡ none → (if b then none else o) ≡ none
no_client true o e = refl
no_client false o e = e

no_bit :
    (support bits : ℕ) (o : Option UdpClient)
    → bits ≡ 0
    → (if (support == 0) || (bits == 0) then none else o) ≡ none
no_bit support bits o e = ground (arith, e)

module _ (type : ℕ) (no_video : (type == type_media_videodata) ≡ false)
    (no_audio : (type == type_media_audiodata) ≡ false) where
  no_way : (c : Client) → OnTcp c → udp_way c type ≡ none
  no_way c t =
      rw (no_video, no_audio)
        (elim t.not_udp [
          | inl e ↦ no_client _ c.udp_client e
          | inr e ↦ no_bit c.udp_support_type _ c.udp_client e
        ])

  put_command :
      (m : SendCacheManager) (bytes : List ℕ) (now : ℕ)
      → length m.video_list < 30
      → (put_send_data m type bytes now).1
        ≡ record m { cmd_list = m.cmd_list ++ (element type bytes now ∷ []) }
  unfolding put_send_data
  put_command m bytes now h = rw (no_video, no_audio) (ground (arith, h))

  pub send_queued :
      (c : Client) (bytes : List ℕ) (now : ℕ)
      → OnTcp c
      → send c type bytes now ≡ queued c type bytes now
  unfolding send
  send_queued c bytes now t =
      open_gate c.running (c.fd_socket == 0) c _ t.running (not_zero c.fd_socket t.connected)
      ∙ ap
          (λ o. elim o as (λ o. Client) [
            | some u ↦ udp_send c u type bytes now
            | none ↦ record c {
              send_cache_manager = (put_send_data c.send_cache_manager type bytes now).1;
            }
          ])
          (no_way c t)
      ∙ ap (λ m. record c { send_cache_manager = m })
          (put_command c.send_cache_manager bytes now t.short)
