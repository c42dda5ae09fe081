-- ===== src/Slip/Tests.antt =====
-- Runs of the SLIP driver, and its theorems at concrete inputs.
use liquorice.Base.{ℕ, ◌≡◌, refl, true, List, [], ◌∷◌, arith, length, replicate, length-replicate}
use liquorice.Slip.{Netbuf, Instance, mru, instance_alloc, recv, send_packet, delivery, push}
use liquorice.Slip.Bounds.{IsValid}
use liquorice.Slip.Encoding.{payload}
use liquorice.Slip.RoundTrip.{send_all, send_all-recv, send_packet-overrun}

abbrev fresh : List ℕ
fresh = replicate mru 0

fresh_size : length fresh ≡ mru
fresh_size = length-replicate {A = ℕ} mru 0

abbrev attached : Instance
attached = record (instance_alloc fresh) { client = true }

abbrev two_layers : Netbuf
two_layers = record { network = 0x45 ∷ 0xc0 ∷ []; transport = 0xdb ∷ []; application = [] }

abbrev one_layer : Netbuf
one_layer = record { network = 0xdc ∷ []; transport = []; application = [] }

abbrev too_long : Netbuf
too_long = record { network = replicate mru 0xdb; transport = []; application = [] }

encodes_specials : send_packet two_layers ≡ 0xc0 ∷ 0x45 ∷ 0xdb ∷ 0xdc ∷ 0xdb ∷ 0xdd ∷ 0xc0 ∷ []
unfolding send_packet
encodes_specials = refl

attached-IsValid : IsValid attached
unfolding instance_alloc
attached-IsValid = record { buffer = fresh_size; room = λ e. omega arith }

send_all-recv_example :
    (recv fresh attached (send_all (two_layers ∷ one_layer ∷ []))).1
    ≡ push (delivery attached) (payload two_layers ∷ payload one_layer ∷ [])
send_all-recv_example =
    send_all-recv fresh fresh_size attached two_layers (one_layer ∷ []) attached-IsValid refl
      (omega arith)

send_packet-overrun_example :
    (recv fresh attached (send_packet too_long)).1 ≡ push (delivery attached) []
send_packet-overrun_example =
    send_packet-overrun fresh fresh_size attached too_long attached-IsValid (omega arith)
      (omega arith)
