-- ===== src/Provisioners/Wsman/Keeps.antt =====
-- What a request keeps of the trail: as much as its POST keeps.
use cert_publisher.Prelude.{String, ◌≡◌, refl, sym, subst, Option, none, some, List, [], ◌∷◌}
use cert_publisher.Prelude.Keys.{Dict}
use cert_publisher.Prelude.Text.{concat}
use cert_publisher.Effects.{Result}
use cert_publisher.Provisioners.Dialogue.{Reply, Trail, posts, Outside, Line, uuid}
use cert_publisher.Provisioners.Dialogue.Keeps.{
  Keeps, Keeps-bind, Keeps-pure, Keeps-raise, Keeps-lift, Keeps-uuid,
}
use cert_publisher.Provisioners.Dialogue.Ends.{Ends}
use cert_publisher.Provisioners.Dialogue.Leads.{Leads, Leads-then, Leads-before}
use cert_publisher.Provisioners.Wsman.{WsmanClient, post, send, read, invoke, invoke_with}

-- `P` outlives a POST of this client for this purpose, with any envelope and any answer.
abbrev pub Outlives : (Trail → Type 0) → WsmanClient → String → Type 0
Outlives P c what =
    (envelope : String) (r : Result Reply) (t : Trail)
    → P t
    → P (
        posts (record {
          pin = c.pin;
          password = c.password;
          what = what;
          envelope = envelope;
          reply = r;
        })
        ∷ t)

module _ ⦃o : Outside⦄ (P : Trail → Type 0) (c : WsmanClient) where
  send-Keeps : (envelope what : String) → Outlives P c what → Keeps P (send c envelope what)
  unfolding send
  send-Keeps envelope what k =
      Keeps-bind P _ _
        (unfold post in
          record { kept = λ l h. k envelope (o.post l.trail c.url envelope) l.trail h })
        (λ r. Keeps-lift P _)

  pub read-Keeps :
      (cim_class : String) (selectors : Dict String)
      → Outlives P c (concat (cim_class ∷ " Get" ∷ []))
      → Keeps P (read c cim_class selectors)
  unfolding read
  read-Keeps cim_class selectors k =
      Keeps-bind P _ _ (Keeps-uuid P)
        (λ id. Keeps-bind P _ _ (send-Keeps _ _ k) (λ root. Keeps-pure P _))

  invoke_with-Keeps :
      (cim_class method : String) (params : Dict (List String)) (s : Option (Dict String))
      → Outlives P c (concat (cim_class ∷ "." ∷ method ∷ []))
      → Keeps P (invoke_with c cim_class method params s)
  unfolding invoke_with
  invoke_with-Keeps cim_class method params none k = Keeps-raise P _
  invoke_with-Keeps cim_class method params (some s) k =
      Keeps-bind P _ _ (Keeps-uuid P)
        (λ id. Keeps-bind P _ _ (send-Keeps _ _ k) (λ root. Keeps-lift P _))

  pub invoke-Keeps :
      (cim_class method : String) (params : Dict (List String))
      → Outlives P c (concat (cim_class ∷ "." ∷ method ∷ []))
      → Keeps P (invoke c cim_class method params)
  unfolding invoke
  invoke-Keeps cim_class method params k = invoke_with-Keeps cim_class method params _ k

-- A method is called with one POST at most.
module _ ⦃o : Outside⦄ (P : Trail → Type 0) (c : WsmanClient) (cim_class method : String)
    (params : Dict (List String)) (l : Line) where
  abbrev Posted : Trail → Type 0
  Posted t =
      (envelope : String) (r : Result Reply)
      → P (
          posts (record {
            pin = c.pin;
            password = c.password;
            what = concat (cim_class ∷ "." ∷ method ∷ []);
            envelope = envelope;
            reply = r;
          })
          ∷ t)

  uuid-Ends : Ends (λ id t. t ≡ l.trail) uuid l
  unfolding uuid
  uuid-Ends = record { ended = refl }

  post-Leads :
      (envelope : String) (l' : Line)
      → Posted l'.trail
      → Leads P (post c envelope (concat (cim_class ∷ "." ∷ method ∷ []))) l'
  unfolding post
  post-Leads envelope l' j = record { led = j envelope (o.post l'.trail c.url envelope) }

  send-Leads :
      (envelope : String) (l' : Line)
      → Posted l'.trail
      → Leads P (send c envelope (concat (cim_class ∷ "." ∷ method ∷ []))) l'
  unfolding send
  send-Leads envelope l' j = Leads-before P _ _ l' (post-Leads envelope l' j) (λ r. Keeps-lift P _)

  invoke_with-Leads :
      (s : Option (Dict String))
      → P l.trail
      → Posted l.trail
      → Leads P (invoke_with c cim_class method params s) l
  unfolding invoke_with
  invoke_with-Leads none k j = record { led = (Keeps-raise P _).kept l k }
  invoke_with-Leads (some s) k j =
      Leads-then P (λ id t. t ≡ l.trail) _ _ l (Keeps-uuid P) uuid-Ends k
        (λ id l' p e.
          Leads-before P _ _ l' (send-Leads _ l' (subst Posted (sym e) j)) (λ root. Keeps-lift P _))

  pub invoke-Leads : P l.trail → Posted l.trail → Leads P (invoke c cim_class method params) l
  unfolding invoke
  invoke-Leads k j = invoke_with-Leads _ k j
