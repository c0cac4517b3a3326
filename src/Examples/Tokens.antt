-- ===== src/Examples/Tokens.antt =====
-- A request whose token the UAA knows.
use cf_networking_release.Prelude.{String, codes, ◌≡◌, ◌⊎◌, true, [], ◌∷◌, Result, ok}
use cf_networking_release.Handlers.{TokenResponse}
use cf_networking_release.Handlers.Endpoints.{Response, written}
use cf_networking_release.Handlers.Auth.{token_of, wrap_handler}
use cf_networking_release.UaaClient.{Client, Request, HttpResponse}
use cf_networking_release.UaaClient.Tokens.{Vouches, over_uaa, InScope, wrap_handler-Vouches}

abbrev client : Client
client = record { base_url = "https://uaa"; name = "network-policy"; secret = "s" }

abbrev send : Request → Result HttpResponse
send request = ok (record { status = 200; body = ok "dev" })

abbrev unmarshal : String → Result TokenResponse
unmarshal body = ok (record { scope = "network.write" ∷ []; user_id = "u1"; user_name = body })

abbrev greet : TokenResponse → String → Response String × String
greet token_data s = (written token_data.user_name, s)

wrap_handler-Vouches_example :
    ((token_data : TokenResponse) × Vouches send client unmarshal
        (token_of (codes "Bearer x"))
        token_data
      × InScope send client unmarshal ("network.write" ∷ []) true token_data
      × (wrap_handler
            (over_uaa send client unmarshal ("network.write" ∷ []) true)
            greet
            (codes "Bearer x" ∷ [])
            "s"
          ≡ greet token_data "s"))
    ⊎ (((token_data : TokenResponse)
          → Vouches send client unmarshal (token_of (codes "Bearer x")) token_data
          → ¬ InScope send client unmarshal ("network.write" ∷ []) true token_data)
        × ((wrap_handler
              (over_uaa send client unmarshal ("network.write" ∷ []) true)
              greet
              (codes "Bearer x" ∷ [])
              "s").1
            ≡ "s")
        × ((other : TokenResponse → String → Response String × String)
            → wrap_handler
                (over_uaa send client unmarshal ("network.write" ∷ []) true)
                other
                (codes "Bearer x" ∷ [])
                "s"
              ≡ wrap_handler
                  (over_uaa send client unmarshal ("network.write" ∷ []) true)
                  greet
                  (codes "Bearer x" ∷ [])
                  "s"))
wrap_handler-Vouches_example =
    wrap_handler-Vouches send client unmarshal ("network.write" ∷ []) true greet (codes "Bearer x")
      [] "s"
