-- ===== src/Samples/Secrets.antt =====
-- Secrets of a cluster, a PowerScale resource with two certificates, and the text of a PowerFlex
-- secret with two arrays.
use csm_operator.Prelude.{
  true, false, some, List, [], ◌∷◌, ◌≡◌, refl, if◌then◌else◌, any, Result, ok, err, Err, inl, inr,
  Bool-cases, ◌⊎◌, is_ok,
}
use csm_operator.Prelude.Text.{Text, codes, text_eq}
use csm_operator.Prelude.Dict.{Dict}
use csm_operator.Csm.{
  Csm, Module, no_template, no_module, no_driver, no_spec, no_csm, power_scale, authorization,
  authorization_server,
}
use csm_operator.Drivers.Arrays.{StorageArray, ZonedArray, Yaml}
use csm_operator.Drivers.Prechecks.{SecretReader, is_missing}
use csm_operator.Drivers.Prechecks.Secrets.{IsReader}
use csm_operator.Modules.Switch.{Tools}

abbrev pub secrets : List Text
secrets =
    codes "scale-creds"
    ∷ codes "scale-certs-0"
    ∷ codes "scale-certs-1"
    ∷ codes "proxy-authz-tokens"
    ∷ codes "karavi-config-secret"
    ∷ []

abbrev pub found : Text → Result (Dict Text)
found name = if any (text_eq name) secrets then ok [] else err Err.not_found

abbrev pub reader : {W : Type 0} → SecretReader W
reader namespace name w = (found name, w)

found-answer : (name : Text) → (is_ok (found name) ≡ true) ⊎ (is_missing (found name) ≡ true)
found-answer name = elim (Bool-cases (any (text_eq name) secrets)) [
  | inl e ↦ rw e (inl refl)
  | inr e ↦ rw e (inr refl)
]

pub reader-IsReader : {W : Type 0} → IsReader {W = W} reader
reader-IsReader = record {
  get_world = λ namespace name w. refl;
  get_answer = λ namespace name w. found-answer name;
}

-- One secret, with the arrays of a PowerFlex resource.
abbrev pub flex_found : Text → Result (Dict Text)
flex_found name =
    if text_eq name (codes "flex-config")
    then ok ((codes "config", codes "arrays") ∷ [])
    else err Err.not_found

abbrev pub flex_reader : {W : Type 0} → SecretReader W
flex_reader namespace name w = (flex_found name, w)

abbrev pub first_array : StorageArray
first_array = record {
  username = codes "admin";
  password = codes "secret";
  system_id = codes "id1";
  endpoint = codes "https://127.0.0.1";
  is_default = true;
  mdm = codes "10.0.0.1, 10.0.0.2";
}

abbrev pub second_array : StorageArray
second_array = record first_array {
  system_id = codes "id2";
  is_default = false;
  mdm = codes "10.0.0.3";
}

abbrev pub zoned_array : ZonedArray
zoned_array = record { zoned_id = codes "id1"; zone_name = codes "z1"; label_key = codes "zone" }

abbrev pub unzoned_array : ZonedArray
unzoned_array = record { zoned_id = codes "id2"; zone_name = []; label_key = [] }

abbrev pub yaml : Yaml
yaml = record {
  json_to_yaml = λ t. ok t;
  storage_arrays = λ t. first_array ∷ second_array ∷ [];
  zoned_arrays = λ t. ok (zoned_array ∷ unzoned_array ∷ []);
}

abbrev pub tools : {W : Type 0} → Tools W
tools = record {
  get = reader;
  get_config_map = reader;
  yaml = yaml;
  parse_url = λ t. ok (codes "http", t);
}

abbrev pub scale : Csm
scale = record no_csm {
  name = codes "scale";
  namespace = codes "ns";
  spec = record no_spec {
    driver = record no_driver {
      csi_driver_type = power_scale;
      config_version = codes "v2.15.0";
      common = some (record no_template {
        envs =
            record { name = codes "X_CSI_ISI_SKIP_CERTIFICATE_VALIDATION"; value = codes "False" }
            ∷ record { name = codes "CERT_SECRET_COUNT"; value = codes "0x2" }
            ∷ [];
      });
    };
  };
}

-- The authorization module of a driver, with its proxy.
abbrev pub proxied : Module
proxied = record no_module {
  name = authorization;
  enabled = true;
  config_version = codes "v2.4.0";
  components =
      record no_template {
        name = codes "karavi-authorization-proxy";
        envs = record { name = codes "PROXY_HOST"; value = codes "host" } ∷ [];
      }
      ∷ [];
}

-- An authorization server with a gateway.
abbrev pub gateway_server : Csm
gateway_server = record no_csm {
  name = codes "auth";
  namespace = codes "ns";
  spec = record no_spec {
    modules =
        record no_module {
          name = authorization_server;
          enabled = true;
          config_version = codes "v2.5.0";
          components =
              record no_template { name = codes "nginx-gateway-fabric"; enabled = some true }
              ∷ record no_template { name = codes "proxy-server"; has_gateway = true }
              ∷ [];
        }
        ∷ [];
  };
}
