-- ===== src/Orchestrator/Firecracker/Units.antt =====
-- internal/orchestrator/runtime_firecracker.go: the files that are written into a root file system,
-- some of them with the access token of envd.
use open_e2b.Prelude.{String}
use Prim.Native.String.{◌++◌ as ◌<>◌}

abbrev pub minimal_init : String
minimal_init =
    "#!/bin/sh\nmount -t proc proc /proc\nmount -t sysfs sys /sys\nmount -t devtmpfs dev /dev\nhostname sandbox\n\n# Configure network - CNI handles the host side, we configure inside VM\nip link set lo up\nip link set eth0 up\n# DHCP or static IP from CNI metadata\ndhclient eth0 2>/dev/null || true\n\n# Start envd if available\nif [ -x /usr/local/bin/envd ]; then\n    /usr/local/bin/envd &\nfi\n\n# Keep running\nexec /bin/sh\n"

abbrev pub first_envd_service : String → String
first_envd_service token =
    "[Unit]\nDescription=E2B Environment Daemon\nAfter=network-pre.target systemd-sysctl.service\nBefore=network.target\nWants=network-pre.target\n\n[Service]\nType=simple\nEnvironment=E2B_ACCESS_TOKEN="
    <> token
    <> "\nEnvironment=E2B_ENVD_PORT=49983\nExecStartPre=/bin/sh -c 'ip link set lo up; ip link set eth0 up 2>/dev/null || true'\nExecStart=/usr/local/bin/envd\nRestart=always\nRestartSec=1\n\n[Install]\nWantedBy=multi-user.target\n"

abbrev pub keep_alive_service : String
keep_alive_service =
    "[Unit]\nDescription=E2B Keep Alive Service\nAfter=envd.service\nRequires=envd.service\n\n[Service]\nType=simple\nExecStart=/bin/sh -c 'while true; do sleep 3600; done'\nRestart=always\n\n[Install]\nWantedBy=multi-user.target\n"

abbrev pub network_service : String
network_service =
    "[Unit]\nDescription=E2B Network Configuration\nBefore=network.target envd.service\nWants=network-pre.target\n\n[Service]\nType=oneshot\nRemainAfterExit=yes\nExecStart=/bin/sh -c 'ip link set lo up; ip link set eth0 up; dhclient -1 eth0 2>/dev/null || ip addr add 192.168.128.2/24 dev eth0; ip route add default via 192.168.128.1 2>/dev/null || true'\n\n[Install]\nWantedBy=multi-user.target\n"

abbrev pub envd_service : String → String
envd_service token =
    "[Unit]\nDescription=E2B Environment Daemon\nAfter=network.target e2b-network.service\nRequires=e2b-network.service\nWants=network.target\n\n[Service]\nType=simple\nEnvironment=E2B_ACCESS_TOKEN="
    <> token
    <> "\nEnvironment=E2B_ENVD_PORT=49983\nExecStart=/usr/local/bin/envd\nRestart=always\nRestartSec=1\n\n[Install]\nWantedBy=multi-user.target\n"

abbrev pub init_script : String → String
init_script token =
    "#!/bin/sh\n### BEGIN INIT INFO\n# Provides:          envd\n# Required-Start:    $network $local_fs\n# Required-Stop:     $network $local_fs\n# Default-Start:     2 3 4 5\n# Default-Stop:      0 1 6\n# Description:       E2B Environment Daemon\n### END INIT INFO\n\nexport E2B_ACCESS_TOKEN="
    <> token
    <> "\nexport E2B_ENVD_PORT=49983\n\ncase \"$1\" in\n    start)\n        ip link set eth0 up 2>/dev/null || true\n        dhclient -1 eth0 2>/dev/null || ip addr add 192.168.128.2/24 dev eth0 2>/dev/null || true\n        ip route add default via 192.168.128.1 2>/dev/null || true\n        /usr/local/bin/envd > /var/log/envd.log 2>&1 &\n        ;;\n    stop)\n        pkill envd || true\n        ;;\n    *)\n        echo \"Usage: $0 {start|stop}\"\n        exit 1\n        ;;\nesac\nexit 0\n"

abbrev pub rc_local : String → String
rc_local token =
    "#!/bin/sh -e\n# E2B Sandbox Initialization - rc.local\n\n# Configure network\nip link set lo up 2>/dev/null || true\nip link set eth0 up 2>/dev/null || true\n\n# Get IP from DHCP or use default\ndhclient -1 eth0 2>/dev/null || {\n    ip addr add 192.168.128.2/24 dev eth0 2>/dev/null || true\n    ip route add default via 192.168.128.1 2>/dev/null || true\n}\n\n# Start envd daemon if not already running\nif ! pgrep -x envd > /dev/null 2>&1; then\n    export E2B_ACCESS_TOKEN="
    <> token
    <> "\n    export E2B_ENVD_PORT=49983\n    /usr/local/bin/envd > /var/log/envd.log 2>&1 &\n    echo \"envd started on port 49983\"\nfi\n\nexit 0\n"

abbrev pub rc_local_service : String
rc_local_service =
    "[Unit]\nDescription=/etc/rc.local Compatibility\nConditionFileIsExecutable=/etc/rc.local\nAfter=network.target\n\n[Service]\nType=forking\nExecStart=/etc/rc.local start\nTimeoutSec=0\nRemainAfterExit=yes\nGuessMainPID=no\n\n[Install]\nWantedBy=multi-user.target\n"
