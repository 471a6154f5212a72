-- ===== src/Tests/Validator.antt =====
-- The address of a client behind a proxy.
use lightnode.Common.{ℕ, ◌≡◌, refl, true, none, some, List, ◌∷◌, ◌++◌}
use lightnode.Common.Ascii.{codes, split}
use lightnode.Validator.{trim_front, trim_back, trim_space, last_entry, ip_string, Net, admit}
use lightnode.Validator.Forwarded.{admit-append}

abbrev simple_net : Net
simple_net = record { Ip = List ℕ; parse_ip = λ b. some b; split_host_port = λ b. some b }

proxy_entry : last_entry (split 44 (codes " 10.0.0.1 ,")) ≡ some (codes "10.0.0.1")
unfolding last_entry split trim_space trim_front trim_back
proxy_entry = refl

blank_header : ip_string (codes " , ,") (codes "1.2.3.4") ≡ none
unfolding ip_string last_entry split trim_space trim_front trim_back
blank_header = refl

admit-append_example :
    admit simple_net (λ ip. true) (codes "6.6.6.6" ++ 44 ∷ codes " 10.0.0.1 ,") (codes "1.2.3.4")
    ≡ admit simple_net (λ ip. true) (codes " 10.0.0.1 ,") (codes "5.6.7.8")
admit-append_example =
    admit-append simple_net (λ ip. true) (codes "6.6.6.6") (codes " 10.0.0.1 ,") (codes "10.0.0.1")
      (codes "1.2.3.4") (codes "5.6.7.8") proxy_entry
