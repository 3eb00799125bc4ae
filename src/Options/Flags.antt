-- ===== src/Options/Flags.antt =====
-- Flags of cmd/metrics-server/app/options/options.go and AddFlags of kubelet_client.go: the flags
-- that are declared, with the variables behind them. The flag sets of pflag are a parameter, and so
-- are the flags that the options structs of the libraries declare.
use metrics_server.Prelude.{
  ◌≡◌, refl, ap, ◌∙◌, Bool, true, false, not, Option, some, List, [], ◌∷◌, ◌++◌, map, every, length,
  leb, ◌&&◌, ◌||◌, sym, GoString, gostring_eq, str, ◌==◌, ◌>>=?◌, arith,
}
use mathlib.Core.List.{append-nil, append_assoc}
use metrics_server.Prelude.Int.{ℤ}
use metrics_server.Go.Time.{Duration}
use metrics_server.Options.{Options, KubeletClientOptions}

-- A variable of the options with its default: BoolVar, IntVar, StringVar, StringSliceVar, DurationVar.
pub data Variable (O : Type 0) : Type 0 where
  bool_var : (Bool → O → O) → Bool → Variable O
  int_var : (ℤ → O → O) → ℤ → Variable O
  string_var : (GoString → O → O) → GoString → Variable O
  string_slice_var : (List GoString → O → O) → List GoString → Variable O
  duration_var : (Duration → O → O) → Duration → Variable O

-- The declaration of a flag sets its variable to the default.
abbrev pub set_default : {O : Type 0} → Variable O → O → O
set_default (bool_var put value) o = put value o
set_default (int_var put value) o = put value o
set_default (string_var put value) o = put value o
set_default (string_slice_var put value) o = put value o
set_default (duration_var put value) o = put value o

pub record Flag (O : Type 0) : Type 0 where
  pub name : GoString
  pub shorthand : GoString
  pub variable : Variable O

abbrev flag : {O : Type 0} → GoString → Variable O → Flag O
flag name variable = record { name = name; shorthand = []; variable = variable }

abbrev key : {O : Type 0} → Flag O → GoString × GoString
key f = (f.name, f.shorthand)

-- A name, and a shorthand of one byte if there is one, that no flag of the set has
abbrev pub is_new : {O : Type 0} → Flag O → List (GoString × GoString) → Bool
is_new f keys =
    leb (length f.shorthand) 1
    && every
        (λ (name, short).
          not (name == f.name) && (leb (length f.shorthand) 0 || not (short == f.shorthand)))
        keys

-- pflag.FlagSet: `none` is the panic of a flag that is declared twice.
pub record FlagSets (G : Type 0) : Type 1 where
  pub new_flag_set : G
  pub keys : G → List (GoString × GoString)
  pub add : {O : Type 0} → G → Flag O → Option G
  pub keys-new : keys new_flag_set ≡ []
  pub keys-add :
      {O : Type 0} (g : G) (f : Flag O)
      → is_new f (keys g) ≡ true
      → (g' : G) × (add g f ≡ some g') × (keys g' ≡ keys g ++ key f ∷ [])

abbrev pub kubelet_flags : KubeletClientOptions → List (Flag KubeletClientOptions)
kubelet_flags o =
    flag (str "kubelet-insecure-tls")
      (bool_var (λ v o. record o { insecure_kubelet_tls = v }) o.insecure_kubelet_tls)
    ∷ flag (str "kubelet-use-node-status-port") (
        bool_var (λ v o. record o { kubelet_use_node_status_port = v })
          o.kubelet_use_node_status_port)
    ∷ flag (str "kubelet-port") (int_var (λ v o. record o { kubelet_port = v }) o.kubelet_port)
    ∷ flag (str "kubelet-preferred-address-types") (
        string_slice_var (λ v o. record o { kubelet_preferred_address_types = v })
          o.kubelet_preferred_address_types)
    ∷ flag (str "kubelet-certificate-authority")
        (string_var (λ v o. record o { kubelet_ca_file = v }) [])
    ∷ flag (str "kubelet-client-key")
        (string_var (λ v o. record o { kubelet_client_key_file = v }) [])
    ∷ flag (str "kubelet-client-certificate")
        (string_var (λ v o. record o { kubelet_client_cert_file = v }) [])
    ∷ flag (str "kubelet-request-timeout")
        (duration_var (λ v o. record o { kubelet_request_timeout = v }) o.kubelet_request_timeout)
    ∷ record {
      name = str "node-selector";
      shorthand = str "l";
      variable = string_var (λ v o. record o { node_selector = v }) o.node_selector;
    }
    ∷ flag (str "deprecated-kubelet-completely-insecure") (
        bool_var (λ v o. record o { deprecated_completely_insecure_kubelet = v })
          o.deprecated_completely_insecure_kubelet)
    ∷ []

abbrev pub server_flags : Options → List (Flag Options)
server_flags o =
    flag (str "metric-resolution")
      (duration_var (λ v o. record o { metric_resolution = v }) o.metric_resolution)
    ∷ flag (str "version") (bool_var (λ v o. record o { show_version = v }) false)
    ∷ flag (str "kubeconfig") (string_var (λ v o. record o { kubeconfig = v }) o.kubeconfig)
    ∷ []

module _ {G : Type 0} (sets : FlagSets G) where
  open sets use {add, keys, keys-add, new_flag_set, keys-new}

  declare : {O : Type 0} → List (Flag O) → G × O → Option (G × O)
  declare [] (g, o) = some (g, o)
  declare (f ∷ flags) (g, o) = add g f >>=? λ g'. declare flags (g', set_default f.variable o)

  unfoldable pub add_flags : G × KubeletClientOptions → Option (G × KubeletClientOptions)
  unfolding declare
  add_flags (g, o) = declare (kubelet_flags o) (g, o)

  -- The two flag sets that hold the program's own flags, and the options.
  unfoldable pub declare_flags : Options → Option (G × G × Options)
  unfolding declare add_flags
  declare_flags o = declare (server_flags o) (new_flag_set, o) >>=? λ (msfs, o').
      add_flags (new_flag_set, o'.kubelet_client) >>=? λ (kcfs, kubelet).
      some (msfs, kcfs, record o' { kubelet_client = kubelet })

abbrev pub set_defaults : {O : Type 0} → List (Flag O) → O → O
set_defaults [] o = o
set_defaults (f ∷ flags) o = set_defaults flags (set_default f.variable o)

abbrev are_new : {O : Type 0} → List (Flag O) → List (GoString × GoString) → Bool
are_new [] keys = true
are_new (f ∷ flags) keys = is_new f keys && are_new flags (keys ++ key f ∷ [])

module _ {G : Type 0} (sets : FlagSets G) where
  open sets use {add, keys, keys-add, new_flag_set, keys-new}

  declare-new :
      {O : Type 0} (flags : List (Flag O)) (g : G) (o : O) (ks : List (GoString × GoString))
      → keys g ≡ ks
      → are_new flags ks ≡ true
      → (g' : G) × (declare sets flags (g, o) ≡ some (g', set_defaults flags o))
        × (keys g' ≡ ks ++ map key flags)
  unfolding declare
  declare-new [] g o ks e h = (g, refl, e ∙ sym (append-nil ks))
  declare-new (f ∷ flags) g o ks e h =
      let first : is_new f (keys g) ≡ true = rw e (ground arith) in
      let (g1, e1, k1) = keys-add g f first in
      let (g2, e2, k2) =
        declare-new flags g1 (set_default f.variable o) (ks ++ key f ∷ [])
          (k1 ∙ ap (λ xs. xs ++ key f ∷ []) e) (ground arith) in
      (g2, rw e1 e2, k2 ∙ append_assoc ks (key f ∷ []) (map key flags))

  -- New flag sets take all flags of the program, each under its own name, and the options keep
  -- their values but for the three files, which are emptied, and the version, which is not shown.
  pub declare_flags-keys :
      (o : Options)
      → (g1 g2 : G) × (declare_flags sets o
          ≡ some (
            g1,
            g2,
            record o {
              show_version = false;
              kubelet_client = record o.kubelet_client {
                kubelet_ca_file = [];
                kubelet_client_key_file = [];
                kubelet_client_cert_file = [];
              };
            },
          ))
        × (keys g1 ≡ map key (server_flags o))
        × (keys g2 ≡ map key (kubelet_flags o.kubelet_client))
  unfolding declare_flags add_flags gostring_eq
  declare_flags-keys o =
      let (g1, e1, k1) = declare-new (server_flags o) new_flag_set o [] keys-new refl in
      let (g2, e2, k2) =
        declare-new (kubelet_flags o.kubelet_client) new_flag_set o.kubelet_client [] keys-new
          refl in
      (g1, g2, rw (e1, e2) refl, k1, k2)
