-- ===== src/Agents/Single.antt =====
-- An action on one host.
use hellogit.Common.{
  Text, ℕ, true, ◌≡◌, refl, none, some, List, [], ◌∷◌, map, keep, update, update_self,
}
use hellogit.Agents.Types.{Installer, Page, Request, uninstalls, send, same}
use hellogit.Agents.Dialogs.{agent_uninstall, credentials_closed}

-- The request of a batch.
abbrev pub batch : Installer → ℕ → Request
batch c l = record { action = uninstalls; installer = c; target_list = l; target = none }

agent_uninstall-targets :
    (c : Installer) (l h : ℕ) (ts : List ℕ) (p : Page)
    → (p.lists l).targets ≡ some ts
    → (agent_uninstall c l h p).0 ≡ record p {
      lists = update p.lists l (record (p.lists l) {
        targets = some (keep (λ r. same (p.hosts r).hostname (p.hosts h).hostname) ts);
      });
    }
unfolding agent_uninstall
agent_uninstall-targets c l h ts p e = rw e refl

-- The button to uninstall from one host is clicked and its dialog is dismissed. A batch uninstall
-- of the list that is then confirmed is sent with the hosts of that name alone.
pub agent_uninstall-dismissed :
    (c c' : Installer) (l h : ℕ) (ts : List ℕ) (req : Request) (user_name password : Text)
    (p : Page)
    → (p.lists l).targets ≡ some ts
    → let q = (credentials_closed none req (agent_uninstall c l h p).0).0 in
      (credentials_closed (some (true, (user_name, password))) (batch c' l) q).1
      ≡ send (record {
        sent_action = uninstalls;
        sent_installer = c';
        sent_list = record {
          about = (p.lists l).about;
          hosts =
              some (map p.hosts (keep (λ r. same (p.hosts r).hostname (p.hosts h).hostname) ts));
        };
        sent_target = none;
        user_name = user_name;
        password = password;
      })
        ∷ []
unfolding credentials_closed
agent_uninstall-dismissed c c' l h ts req user_name password p e =
    rw (agent_uninstall-targets c l h ts p e, update_self p.lists l _) refl
