-- ===== src/Outside.antt =====
-- What the program calls and does not implement, as parameters: the configuration (viper), the
-- iptables binary (go-iptables), the disk (os), the parsers of package net. `O` is the state of all
-- that is outside of the program.
use mathlib.Core.List.{Mem, Perm}
use go_mesos_executor.Common.{◌≡◌, sym, ◌∙◌, ap, String, Bool, List, ◌∷◌}
use go_mesos_executor.Common.Exec.{GoError, Result, Exec, ok, within}
use go_mesos_executor.Hook.{Shared}

-- The configuration by key, as read when the hooks run. A key that is not set gives "", false or [].
pub record Viper : Type 0 where
  pub get_string : String → String
  pub get_bool : String → Bool
  pub get_string_slice : String → List String

pub record Os (O : Type 0) : Type 0 where
  pub mkdir : String → Exec O (Unit {0})
  pub is_exist : GoError → Bool
  pub symlink : String → String → Exec O (Unit {0})
  pub remove : String → Exec O (Unit {0})

-- `net.ParseIP(s) != nil`, and whether `net.ParseCIDR(s)` gives no error.
pub record Net : Type 0 where
  pub is_ip : String → Bool
  pub is_cidr : String → Bool

-- A rule of the firewall: its table, its chain, its words.
pub record Rule : Type 0 where
  pub table : String
  pub chain : String
  pub words : List String

pub record Iptables (O : Type 0) : Type 0 where
  pub new : Exec O (Unit {0})
  pub list : String → String → Exec O (List String)
  pub list_chains : String → Exec O (List String)
  pub append : Rule → Exec O (Unit {0})
  pub delete : Rule → Exec O (Unit {0})

-- What iptables documents of its commands, over the rules that are installed: looking changes
-- nothing, an append that succeeds adds the rule, and a delete of an installed rule removes one.
pub record IsFirewall {O : Type 0} (d : Iptables O) (rules : O → List Rule) : Type 0 where
  pub new_keeps : (o : O) → rules (d.new o).1 ≡ rules o
  pub list_keeps : (table chain : String) (o : O) → rules (d.list table chain o).1 ≡ rules o
  pub list_chains_keeps : (table : String) (o : O) → rules (d.list_chains table o).1 ≡ rules o
  pub append_ok : (r : Rule) (o o' : O) → d.append r o ≡ (ok tt, o') → Perm (rules o') (r ∷ rules o)
  pub delete_mem :
      (r : Rule) (o : O)
      → Mem r (rules o)
      → (o' : O) × (d.delete r o ≡ (ok tt, o')) × Perm (rules o) (r ∷ rules o')

-- An action on the outside, from where a hook runs.
abbrev pub on_outside : {O A : Type 0} → Exec O A → Exec (Shared O) A
on_outside = within (λ s. s.outside) (λ s o. record s { outside = o })

module _ {O A : Type 0} (m : Exec O A) {a : A} {s s' : Shared O}
    (p : on_outside m s ≡ (ok a, s')) where
  pub on_outside-ok : m s.outside ≡ (ok a, s'.outside)
  on_outside-ok = ap (λ (x : Result A × Shared O). (x.0, x.1.outside)) p

  -- All but the outside is as it was.
  pub on_outside-frame : s' ≡ record s { outside = s'.outside }
  on_outside-frame =
      let q : record s { outside = (m s.outside).1 } ≡ s' =
        ap (λ (x : Result A × Shared O). x.1) p in
      sym q ∙ ap (λ (x : Shared O). record s { outside = x.outside }) q
