-- ===== src/Tests/ApiRuns.antt =====
-- Runs of the message API.
use pinveil.Base.{
  ℕ, ◌≡◌, ◌↔◌, refl, true, none, some, List, [], ◌∷◌, ok, ◌>>=◌, codes, Text, nat_equality, nat_eq,
}
use pinveil.Base.Dict
use pinveil.RateLimit.{key_equality}
use pinveil.Store.Memory
use pinveil.Store.Memory.{empty}
use pinveil.Service.RowLife.{on_memory}
use pinveil.Api.{
  Field, part, App, Network, Request, messages, retrieval, post, head, no_slots, read_fields,
  settled, handle,
}
use pinveil.Api.Forms.{IsForm, read_fields-IsForm}
use pinveil.Api.Unserved.{handle-turned_away}
use pinveil.Tests.LimitRuns.{limits, counted_once}
use pinveil.Tests.ServiceRuns.{caps, service, at, right_pin, one_row}

abbrev field : Text → Text → Field
field name value = part (record { name = some name; bytes = ok value; text = ok value })

abbrev fields : List Field
fields =
    field (codes "ttl") (codes "30")
    ∷ field (codes "blob") (1 ∷ 2 ∷ [])
    ∷ field (codes "pin") right_pin
    ∷ []

read_fields-IsForm_example :
    ((read_fields fields no_slots >>= settled) ≡ ok (1 ∷ 2 ∷ [], right_pin, codes "30"))
    ↔ IsForm fields (1 ∷ 2 ∷ []) right_pin (codes "30")
read_fields-IsForm_example = read_fields-IsForm fields (1 ∷ 2 ∷ []) right_pin (codes "30")

-- Addresses are numbers, and no proxy is trusted.
abbrev network : Network ℕ
network = record {
  limits = limits;
  unspecified = 0;
  is_trusted = λ a. nat_eq a 1000;
  parse = λ text. none;
}

abbrev app : App Memory.Inner ℕ
app = record { store = one_row; limiter = counted_once }

abbrev look : Request ℕ
look = record {
  method = head;
  endpoint = retrieval (codes "a") (some right_pin);
  peer = some 7;
  forwarded_for = [];
  instant = 20;
  uploads = 1;
  readings = at 5;
}

abbrev submit : ℕ → Request ℕ
submit instant = record {
  method = post;
  endpoint = messages (record {
    content_type = some (codes "multipart/form-data; boundary=x");
    whole = ok tt;
    multipart = true;
    fields = fields;
  });
  peer = some 7;
  forwarded_for = [];
  instant = instant;
  uploads = 1;
  readings = at 5;
}

handle-turned_away_example : (handle network (on_memory caps service) look app).1.store ≡ one_row
unfolding handle
handle-turned_away_example = handle-turned_away network (on_memory caps service) look app refl
