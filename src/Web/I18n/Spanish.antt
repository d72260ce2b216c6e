-- ===== src/Web/I18n/Spanish.antt =====
-- packages/web/src/i18n/es.ts: the Spanish catalog.
use Prim.Native.String.{String}
use desk_ssh.Base.{List, [], ◌∷◌}

unfoldable pub es : List (String × String)
es =
    ("app.tagline", "Un escritorio gráfico sobre SSH puro")
    ∷ ("login.title", "Conectar a un servidor")
    ∷ ("login.host", "Host / IP")
    ∷ ("login.port", "Puerto")
    ∷ ("login.username", "Usuario")
    ∷ ("login.authMethod", "Autenticación")
    ∷ ("login.auth.password", "Contraseña")
    ∷ ("login.auth.key", "Clave privada (PEM)")
    ∷ ("login.password", "Contraseña")
    ∷ ("login.keyFile", "Archivo de clave")
    ∷ ("login.keyHint", "Pega aquí tu clave privada")
    ∷ ("login.key.loadFile", "Cargar archivo")
    ∷ ("login.key.paste", "Pegar clave")
    ∷ ("login.key.loaded", "Clave cargada: {name}")
    ∷ ("login.key.loadedGeneric", "Clave cargada")
    ∷ ("login.passphrase", "Frase de paso (opcional)")
    ∷ ("login.submit", "Conectar")
    ∷ ("login.connecting", "Conectando…")
    ∷ ("login.error", "No se pudo conectar")
    ∷ ("hostkey.title", "Verificar la autenticidad del servidor")
    ∷ (
      "hostkey.body",
      "La identidad del servidor aún no se conoce. Asegúrate de que esta huella coincide con el servidor en el que confías antes de continuar.",
    )
    ∷ ("hostkey.fingerprint", "Huella")
    ∷ ("hostkey.cancel", "Cancelar")
    ∷ ("hostkey.confirm", "Confiar y conectar")
    ∷ ("connected.title", "Conectado")
    ∷ ("connected.os", "Sistema operativo")
    ∷ ("connected.home", "Inicio")
    ∷ ("connected.listing", "Directorio de inicio")
    ∷ ("connected.transparency", "Comandos ejecutados (transparencia)")
    ∷ ("connected.disconnect", "Desconectar")
    ∷ ("connected.empty", "Directorio vacío")
    ∷ ("desktop.start", "Apps")
    ∷ ("desktop.apps", "Aplicaciones")
    ∷ ("desktop.disconnect", "Desconectar")
    ∷ ("desktop.comingSoon", "Próximamente")
    ∷ ("apps.files", "Archivos")
    ∷ ("apps.system", "Información del sistema")
    ∷ ("apps.history", "Historial de comandos")
    ∷ ("apps.terminal", "Terminal")
    ∷ ("apps.monitor", "Monitor del sistema")
    ∷ ("apps.editor", "Stallman")
    ∷ ("apps.docs", "Documentos")
    ∷ ("apps.viewer", "Visor de imágenes")
    ∷ ("apps.pdf", "Visor de PDF")
    ∷ ("apps.credits", "Acerca de y créditos")
    ∷ ("credits.license", "DeskSSH es software libre, licenciado bajo")
    ∷ ("credits.thirdParty", "Construido con estos proyectos de código abierto")
    ∷ ("credits.thanks", "Gracias a la comunidad de código abierto.")
    ∷ ("system.os", "SO")
    ∷ ("system.host", "Host")
    ∷ ("system.home", "Inicio")
    ∷ ("system.kernel", "Kernel")
    ∷ ("system.uptime", "Tiempo encendido")
    ∷ ("system.packages", "Paquetes")
    ∷ ("system.shell", "Shell")
    ∷ ("system.cpu", "CPU")
    ∷ ("system.memory", "Memoria")
    ∷ ("system.disk", "Disco (/)")
    ∷ ("system.ip", "IP local")
    ∷ ("system.unavailable", "Información del sistema no disponible")
    ∷ ("system.transparency", "Comandos ejecutados (transparencia)")
    ∷ ("history.title", "Historial de comandos")
    ∷ ("history.count", "{n} comandos")
    ∷ ("history.refresh", "Actualizar")
    ∷ ("history.empty", "Aún no se han ejecutado comandos")
    ∷ ("monitor.uptime", "Tiempo encendido")
    ∷ ("monitor.load", "Carga media (1 / 5 / 15 min)")
    ∷ ("monitor.memory", "Memoria")
    ∷ ("monitor.memoryUsage", "{used} de {total} ({pct}%)")
    ∷ ("monitor.unavailable", "Métricas no disponibles")
    ∷ ("monitor.processes", "Procesos")
    ∷ ("monitor.filter", "Filtrar…")
    ∷ ("monitor.refresh", "Actualizar")
    ∷ ("monitor.pid", "PID")
    ∷ ("monitor.user", "Usuario")
    ∷ ("monitor.command", "Comando")
    ∷ ("monitor.stop", "Detener (SIGTERM)")
    ∷ ("monitor.reload", "Recargar (SIGHUP)")
    ∷ ("monitor.forceStop", "Forzar cierre (SIGKILL)")
    ∷ ("monitor.noProcesses", "No hay procesos que coincidan")
    ∷ ("monitor.service", "Servicio:")
    ∷ ("monitor.serviceName", "nombre, p. ej. nginx")
    ∷ ("monitor.svcStart", "Iniciar")
    ∷ ("monitor.svcStop", "Detener")
    ∷ ("monitor.svcRestart", "Reiniciar")
    ∷ ("monitor.actionFailed", "La acción falló")
    ∷ ("monitor.confirmSignalTitle", "¿Enviar señal a este proceso?")
    ∷ ("monitor.confirmSignalBody", "¿Enviar SIG{signal} al PID {pid} ({command})?")
    ∷ ("monitor.confirmServiceTitle", "¿Controlar este servicio?")
    ∷ ("monitor.confirmServiceBody", "¿{action} el servicio \"{name}\"?")
    ∷ ("monitor.cancel", "Cancelar")
    ∷ ("monitor.confirm", "Confirmar")
    ∷ ("elev.modal1Title", "Autenticación de administrador")
    ∷ (
      "elev.modal1Body",
      "Esta acción necesita privilegios de administrador. Introduce tu contraseña para autorizarla.",
    )
    ∷ ("elev.password", "Contraseña")
    ∷ ("elev.username", "Usuario")
    ∷ ("elev.authorize", "Autorizar")
    ∷ ("elev.cancel", "Cancelar")
    ∷ ("elev.failed", "Autenticación fallida o acción no permitida")
    ∷ ("elev.noPermTitle", "Permisos insuficientes")
    ∷ ("elev.noPermBody", "Tu usuario no tiene permisos para realizar esta acción.")
    ∷ (
      "elev.noEscalation",
      "Tu usuario no tiene permisos y este host no permite el escalado de privilegios, así que la acción no se puede completar.",
    )
    ∷ ("elev.haveAdmin", "Tengo credenciales de administrador")
    ∷ ("elev.understood", "Entendido")
    ∷ ("elev.modal2Title", "Autenticarse como otro usuario")
    ∷ (
      "elev.modal2Body",
      "Introduce el usuario y la contraseña de una cuenta con privilegios (o root) para ejecutar esta acción.",
    )
    ∷ ("files.up", "Subir")
    ∷ ("files.empty", "Directorio vacío")
    ∷ ("files.error", "No se pudo listar el directorio")
    ∷ ("files.refresh", "Actualizar")
    ∷ ("files.newFolder", "Nueva carpeta")
    ∷ ("files.newFile", "Nuevo archivo")
    ∷ ("files.open", "Abrir")
    ∷ ("files.openWith", "Abrir con")
    ∷ ("files.openInTerminal", "Abrir en terminal")
    ∷ ("files.download", "Descargar a mi computadora")
    ∷ ("files.upload", "Cargar desde mi computadora")
    ∷ ("files.conflictTitle", "Ese nombre ya existe")
    ∷ ("files.conflictBody", "\"{name}\" ya existe aquí. ¿Reemplazarlo o conservar ambos?")
    ∷ ("files.replace", "Reemplazar")
    ∷ ("files.keepBoth", "Conservar ambos")
    ∷ ("files.rename", "Renombrar")
    ∷ ("files.cut", "Cortar")
    ∷ ("files.copy", "Copiar")
    ∷ ("files.paste", "Pegar")
    ∷ ("files.delete", "Eliminar")
    ∷ ("files.name", "Nombre")
    ∷ ("files.cancel", "Cancelar")
    ∷ ("files.create", "Crear")
    ∷ ("files.save", "Guardar")
    ∷ ("files.actionError", "La acción falló")
    ∷ ("files.downloadError", "No se pudo descargar el archivo")
    ∷ ("files.deleteTitle", "¿Eliminar este elemento?")
    ∷ ("files.deleteBody", "\"{name}\" se eliminará permanentemente del servidor.")
    ∷ ("editor.untitled", "Ningún archivo abierto")
    ∷ ("editor.save", "Guardar")
    ∷ ("editor.saved", "Guardado")
    ∷ ("editor.saving", "Guardando…")
    ∷ ("editor.unsaved", "Cambios sin guardar")
    ∷ ("editor.loadError", "No se pudo abrir el archivo")
    ∷ ("editor.saveError", "No se pudo guardar")
    ∷ ("editor.loading", "Cargando editor…")
    ∷ ("editor.binary", "Este archivo no parece de texto y no se abrió.")
    ∷ ("docs.bold", "Negrita")
    ∷ ("docs.italic", "Cursiva")
    ∷ ("docs.strike", "Tachado")
    ∷ ("docs.code", "Código en línea")
    ∷ ("docs.h1", "Encabezado 1")
    ∷ ("docs.h2", "Encabezado 2")
    ∷ ("docs.bullet", "Lista con viñetas")
    ∷ ("docs.ordered", "Lista numerada")
    ∷ ("docs.quote", "Cita")
    ∷ ("docs.undo", "Deshacer")
    ∷ ("docs.redo", "Rehacer")
    ∷ ("docs.save", "Guardar")
    ∷ ("docs.saving", "Guardando…")
    ∷ ("docs.saved", "Guardado")
    ∷ ("docs.unsaved", "Cambios sin guardar")
    ∷ ("docs.loadError", "No se pudo abrir el documento")
    ∷ ("docs.saveError", "No se pudo guardar")
    ∷ ("docs.binary", "Este archivo no parece de texto y no se abrió.")
    ∷ ("viewer.empty", "Ninguna imagen abierta")
    ∷ ("viewer.openHint", "Abre una imagen desde el gestor de archivos.")
    ∷ ("viewer.error", "No se pudo abrir la imagen")
    ∷ ("viewer.fit", "Ajustar")
    ∷ ("viewer.actualSize", "Tamaño real")
    ∷ ("pdf.empty", "Ningún PDF abierto")
    ∷ ("pdf.openHint", "Abre un PDF desde el gestor de archivos.")
    ∷ ("pdf.error", "No se pudo abrir el PDF")
    ∷ ("pdf.page", "Página {n} / {total}")
    ∷ ("pdf.prev", "Página anterior")
    ∷ ("pdf.next", "Página siguiente")
    ∷ ("pdf.zoomIn", "Acercar")
    ∷ ("pdf.zoomOut", "Alejar")
    ∷ []
