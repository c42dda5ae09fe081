-- ===== src/Ethernet.antt =====
-- Ethernet, src/lib/ethernet/ethernet.c. A frame that is received is the memory that it stands in, with its
-- header at 0; a frame that is sent is the lists of its layers. The device below is reduced to its address.
pub mod Clients
pub mod Delivery
mod Tests
use liquorice.Base.{
  ℕ, ◌+◌, ◌-◌, ◌%◌, ◌^◌, Option, none, some, List, [], ◌∷◌, ◌++◌, not, ◌==◌, if◌then◌else◌,
}
use liquorice.Octets.{octets16, read16}
use liquorice.Ahdlc.{Netbuf}

-- `struct ethernet_client`, with its type and the server that it was given.
pub record EthernetClient : Type 0 where
  pub type_ : ℕ
  pub server : ℕ

-- `struct ethernet_server`, which is named by a number, with its type.
pub record EthernetServer : Type 0 where
  pub server : ℕ
  pub type_ : ℕ

-- `struct ethernet_instance`, with the address of the device that it is attached to.
pub record Instance : Type 0 where
  pub client_list : List EthernetClient
  pub mac : List ℕ

-- What `ethernet_recv_netbuf()` writes into the `struct netbuf`: the datalink layer's size, and the network
-- layer's offset and size.
pub record Received : Type 0 where
  pub datalink_size : ℕ
  pub network : ℕ
  pub network_size : ℕ

-- The walks over `ei_client_list` that compare a type.
unfoldable pub find_client : ℕ → List EthernetClient → Option EthernetClient
find_client type_ [] = none
find_client type_ (ec ∷ clients) =
    let rest = find_client type_ clients in if not (ec.type_ == type_) then rest else some ec

abbrev pub recv_found : ℕ → Option EthernetClient → Option (EthernetClient × Received)
recv_found size none = none
recv_found size (some ec) =
    some (
      ec,
      record { datalink_size = 14; network = 14; network_size = (size + 2 ^ 32 - 14) % 2 ^ 32 },
    )

-- `ethernet_recv_netbuf()` of a frame of `size` octets: the client that is called, and what with.
unfoldable pub recv_netbuf : Instance → (ℕ → ℕ) → ℕ → Option (EthernetClient × Received)
recv_netbuf ei mem size = recv_found size (find_client (read16 mem 12) ei.client_list)

-- `ethernet_get_mac()`
abbrev pub get_mac : Instance → List ℕ
get_mac ei = ei.mac

-- `ethernet_send_netbuf()`: the frame that the device is given.
unfoldable pub send_netbuf : Instance → EthernetServer → List ℕ → Netbuf → Netbuf
send_netbuf ei es dest_mac nb = record nb { datalink = dest_mac ++ get_mac ei ++ octets16 es.type_ }

abbrev pub attach_found :
    EthernetClient → ℕ → Instance → Option EthernetClient → Instance × Option EthernetServer
attach_found ec server ei none = (
  record ei { client_list = record ec { server = server } ∷ ei.client_list },
  some (record { server = server; type_ = ec.type_ }),
)
attach_found ec server ei (some p) = (ei, none)

-- `ethernet_client_attach()`, where `server` is the new server structure.
unfoldable pub client_attach : EthernetClient → ℕ → Instance → Instance × Option EthernetServer
client_attach ec server ei = attach_found ec server ei (find_client ec.type_ ei.client_list)

unfoldable pub detach : ℕ → List EthernetClient → List EthernetClient
detach server [] = []
detach server (ec ∷ clients) =
    let rest = detach server clients in if ec.server == server then clients else ec ∷ rest

-- `ethernet_client_detach()`
abbrev pub client_detach : ℕ → Instance → Instance
client_detach server ei = record ei { client_list = detach server ei.client_list }

-- `ethernet_instance_alloc()` on a device.
abbrev pub instance_alloc : List ℕ → Instance
instance_alloc mac = record { client_list = []; mac = mac }
