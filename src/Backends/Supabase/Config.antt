-- ===== src/Backends/Supabase/Config.antt =====
-- src/backends/supabase.rs: the configuration files of a cluster.
use Prim.Native.String.{◌++◌}
use app_salmon.Base.{String}
use app_salmon.Base.Paths.{decimal}
use app_salmon.Backends.Supabase.Specs.{rest_port, auth_port, functions_port}

abbrev pub roles_sql : String
roles_sql =
    "-- NOTE: change to your own passwords for production environments\n"
    ++ ("\\set pgpass `echo \"$POSTGRES_PASSWORD\"`\n\n"
        ++ ("ALTER USER authenticator WITH PASSWORD :'pgpass';\n"
            ++ "ALTER USER supabase_auth_admin WITH PASSWORD :'pgpass';\n"))

abbrev pub jwt_sql : String
jwt_sql =
    "\\set jwt_secret `echo \"$JWT_SECRET\"`\n\\set jwt_exp `echo \"$JWT_EXP\"`\n\n"
    ++ ("ALTER DATABASE postgres SET \"app.settings.jwt_secret\" TO :'jwt_secret';\n"
        ++ "ALTER DATABASE postgres SET \"app.settings.jwt_exp\" TO :'jwt_exp';\n")

-- A service, by the path under which it is reached.
abbrev route : String → String → String → String
route name url path =
    "  - name: "
    ++ (name
        ++ ("\n    url: http://"
            ++ (url
                ++ ("\n    routes:\n      - name: "
                    ++ (name ++ ("-route\n        paths:\n          - " ++ (path ++ "\n")))))))

unfoldable pub kong_declarative_config : String → String → String → String
kong_declarative_config rest_alias auth_alias functions_alias =
    "_format_version: \"3.0\"\nservices:\n"
    ++ (route "rest" (rest_alias ++ (":" ++ decimal rest_port)) "/rest/v1"
        ++ (route "auth" (auth_alias ++ (":" ++ decimal auth_port)) "/auth/v1"
            ++ route "functions" (functions_alias ++ (":" ++ decimal functions_port))
                "/functions/v1"))
